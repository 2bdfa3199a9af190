-- ===== src/Trace/Receiver/Steps.antt =====
-- trace/receiver.rs: what each step of the receiver keeps of a session.
use ttl.Base.{
  ℕ, ◌≡◌, ◌∙◌, ap, refl, Bool, true, false, Option, none, some, ◌==◌, length, Bool-cases, inl, inr,
  ◌&&◌, is_some, if◌then◌else◌,
}
use ttl.Base.Net.{ip_eq}
use ttl.Base.Float.{Float}
use ttl.Probe.Response.{IcmpResponseType}
use ttl.State.Pmtud.{
  PmtudState, PmtudPhase, searching, waiting_for_destination, complete, record_failure,
}
use ttl.State.Pmtud.Bounds.{
  IsValid, record_success-IsValid, record_failure-IsValid, record_frag_needed-IsValid,
}
use ttl.State.Hop.{
  Hop, record_flow_response, record_flow_timeout, record_timeout, record_nat_check,
  record_response_ttl, record_ttl_manip_check, record_response_with_extensions,
  record_response_detecting_flaps_with_extensions,
}
use ttl.State.Session
use ttl.State.Session.Frame.{with_hop-frame, length-with_hop}
use ttl.State.Session.{Session, Clock, with_hop, has_hop, reach, record_event, offset_ms}
use ttl.State.Session.Invariant.{IsTtl, IsWellFormed, with_hop-IsWellFormed, reach-IsWellFormed}
use ttl.Trace.Pending.{PendingProbe, PendingKey}
use ttl.Trace.Receiver.Apply.{
  BatchedResponse, ReceiverConfig, is_ttl_exceeded, is_echo_reply, is_searching, is_frag_needed,
  on_current_size, pmtud_answer, check_response_ttl, check_quoted_ttl, answer_hop, answer_trace,
  check_destination, apply_response, timeout_trace, record_pending_timeout, timeout_event,
}

-- A search, if there is one, keeps its bounds.
abbrev pub SearchIsValid : Option PmtudState → Type 0
SearchIsValid none = Unit
SearchIsValid (some p) = IsValid p

is_searching_eq : (p : PmtudPhase) → is_searching p ≡ true → p ≡ searching
is_searching_eq searching e = refl
is_searching_eq waiting_for_destination e = cc
is_searching_eq complete e = cc

pmtud_answer-IsValid :
    (t : IcmpResponseType) (mtu : Option ℕ) (p : PmtudState)
    → p.phase ≡ searching
    → IsValid p
    → IsValid (pmtud_answer t mtu p)
unfolding pmtud_answer
pmtud_answer-IsValid t none p e v = elim (Bool-cases (is_frag_needed t)) [
  | inl too_big ↦ rw too_big (record_failure-IsValid p e v)
  | inr fits ↦ rw fits (record_success-IsValid p e v)
]
pmtud_answer-IsValid t (some mtu) p e v = elim (Bool-cases (is_frag_needed t)) [
  | inl too_big ↦ rw too_big (record_frag_needed-IsValid p mtu e v)
  | inr fits ↦ rw fits (record_success-IsValid p e v)
]

on_current_size-IsValid :
    (size : Option ℕ) (f : PmtudState → PmtudState) (p : Option PmtudState)
    → ((p : PmtudState) → p.phase ≡ searching → IsValid p → IsValid (f p))
    → SearchIsValid p
    → SearchIsValid (on_current_size size f p)
unfolding on_current_size
on_current_size-IsValid none f p keeps v = v
on_current_size-IsValid (some size) f none keeps v = v
on_current_size-IsValid (some size) f (some p) keeps v =
    chosen (is_searching p.phase) (size == p.current_size) refl
  where
    chosen :
        (running same : Bool)
        → is_searching p.phase ≡ running
        → IsValid (if running && same then f p else p)
    chosen true true e = keeps p (is_searching_eq p.phase e) v
    chosen true false e = v
    chosen false same e = v

is_some-on_current_size :
    (size : Option ℕ) (f : PmtudState → PmtudState) (p : Option PmtudState)
    → is_some (on_current_size size f p) ≡ is_some p
unfolding on_current_size
is_some-on_current_size none f p = refl
is_some-on_current_size (some size) f none = refl
is_some-on_current_size (some size) f (some p) = refl

module _ (f64 : Float) where
  -- A well-formed session whose search, if there is one, keeps its bounds.
  abbrev pub IsSound : Session f64 → Type 0
  IsSound s = IsWellFormed f64 s × SearchIsValid s.pmtud

  pub change_pmtud-IsSound :
      (size : Option ℕ) (f : PmtudState → PmtudState) (s : Session f64)
      → ((p : PmtudState) → p.phase ≡ searching → IsValid p → IsValid (f p))
      → IsSound s
      → IsSound (record s { pmtud = on_current_size size f s.pmtud })
  change_pmtud-IsSound size f s keeps (w, v) = (
    record {
      indexed = w.indexed;
      full = w.full;
      searching = is_some-on_current_size size f s.pmtud ∙ w.searching;
      reached = w.reached;
      near = w.near;
    },
    on_current_size-IsValid size f s.pmtud keeps v,
  )

  pub record_event-IsSound :
      (event : Session.ProbeEvent) (s : Session f64)
      → IsSound s
      → IsSound (record_event f64 event s)
  unfolding record_event
  record_event-IsSound event s (w, v) = (
    record {
      indexed = w.indexed;
      full = w.full;
      searching = w.searching;
      reached = w.reached;
      near = w.near;
    },
    v,
  )

  pmtud-with_hop :
      (ttl : ℕ) (f : Hop f64 → Hop f64) (s : Session f64) → (with_hop f64 ttl f s).pmtud ≡ s.pmtud
  pmtud-with_hop ttl f s = ap (λ (t : Session f64). t.pmtud) (with_hop-frame f64 ttl f s)

  pub with_hop-IsSound :
      (ttl : ℕ) (f : Hop f64 → Hop f64) (s : Session f64)
      → ((h : Hop f64) → (f h).ttl ≡ h.ttl)
      → IsSound s
      → IsSound (with_hop f64 ttl f s)
  with_hop-IsSound ttl f s same (w, v) =
      (with_hop-IsWellFormed f64 ttl f s same w, rw (pmtud-with_hop ttl f s) v)

  ttl-check_response_ttl :
      (single : Bool) (t : Option ℕ) (ipv6 : Bool) (h : Hop f64)
      → (check_response_ttl f64 single t ipv6 h).ttl ≡ h.ttl
  unfolding record_response_ttl
  ttl-check_response_ttl true (some t) ipv6 h = refl
  ttl-check_response_ttl false (some t) ipv6 h = refl
  ttl-check_response_ttl single none ipv6 h = refl

  ttl-check_quoted_ttl :
      (t : IcmpResponseType) (quoted : Option ℕ) (h : Hop f64)
      → (check_quoted_ttl f64 t quoted h).ttl ≡ h.ttl
  unfolding record_ttl_manip_check
  ttl-check_quoted_ttl t none h = refl
  ttl-check_quoted_ttl t (some quoted) h = elim (Bool-cases (is_ttl_exceeded t)) [
    | inl exceeded ↦ rw exceeded refl
    | inr other ↦ rw other refl
  ]

  ttl-answered :
      (single : Bool) (resp : BatchedResponse) (h : Hop f64)
      → (if single
          then record_response_detecting_flaps_with_extensions f64 resp.responder resp.rtt
              resp.mpls_labels resp.interface_info h
          else record_response_with_extensions f64 resp.responder resp.rtt resp.mpls_labels
              resp.interface_info h).ttl
        ≡ h.ttl
  unfolding record_response_with_extensions record_response_detecting_flaps_with_extensions
  ttl-answered true resp h = refl
  ttl-answered false resp h = refl

  answer_hop-ttl :
      (config : ReceiverConfig) (resp : BatchedResponse) (h : Hop f64)
      → (answer_hop f64 config resp h).ttl ≡ h.ttl
  unfolding answer_hop record_flow_response record_nat_check
  answer_hop-ttl config resp h =
      ttl-check_quoted_ttl resp.response_type resp.quoted_ttl _
      ∙ ttl-check_response_ttl (config.num_flows == 1) resp.response_ttl config.ipv6 _
      ∙ ttl-answered (config.num_flows == 1) resp h

  answer_trace-IsSound :
      (config : ReceiverConfig) (clock : Clock) (resp : BatchedResponse) (s : Session f64)
      → IsSound s
      → IsSound (answer_trace f64 config clock resp s)
  unfolding answer_trace
  answer_trace-IsSound config clock resp s sound = elim (Bool-cases (is_some resp.packet_size)) [
    | inl of_search ↦ rw of_search sound
    | inr of_trace ↦ rw of_trace (
        record_event-IsSound _ _
          (with_hop-IsSound resp.probe_id.ttl _ s (answer_hop-ttl config resp) sound))
  ]

  length-answer_trace :
      (config : ReceiverConfig) (clock : Clock) (resp : BatchedResponse) (s : Session f64)
      → length (answer_trace f64 config clock resp s).hops ≡ length s.hops
  unfolding answer_trace record_event
  length-answer_trace config clock resp s = elim (Bool-cases (is_some resp.packet_size)) [
    | inl of_search ↦ rw of_search refl
    | inr of_trace ↦ rw of_trace (length-with_hop f64 resp.probe_id.ttl _ s)
  ]

  check_destination-IsSound :
      (resp : BatchedResponse) (s : Session f64)
      → IsTtl (length s.hops) (some resp.probe_id.ttl)
      → IsSound s
      → IsSound (check_destination f64 resp s)
  unfolding check_destination reach
  check_destination-IsSound resp s near (w, v) =
      elim (Bool-cases (is_echo_reply resp.response_type && ip_eq resp.responder resp.target)) [
        | inl there ↦ rw there (reach-IsWellFormed f64 resp.probe_id.ttl s near w, v)
        | inr other ↦ rw other (w, v)
      ]

  -- A response to a probe of one of the session's times to live, of the trace or of the path MTU
  -- search and whatever it says, keeps the session well formed and its search within its bounds.
  pub apply_response-IsSound :
      (config : ReceiverConfig) (clock : Clock) (resp : BatchedResponse) (s : Session f64)
      → IsTtl (length s.hops) (some resp.probe_id.ttl)
      → IsSound s
      → IsSound (apply_response f64 config clock resp s)
  unfolding apply_response
  apply_response-IsSound config clock resp s near sound =
      change_pmtud-IsSound resp.packet_size (pmtud_answer resp.response_type resp.reported_mtu) _
        (pmtud_answer-IsValid resp.response_type resp.reported_mtu)
        (check_destination-IsSound resp (answer_trace f64 config clock resp s)
          (rw (length-answer_trace config clock resp s) near)
          (answer_trace-IsSound config clock resp s sound))

  timeout_trace-IsSound :
      (record_events : Bool) (clock : Clock) (key : PendingKey) (probe : PendingProbe)
      (s : Session f64)
      → IsSound s
      → IsSound (timeout_trace f64 record_events clock key probe s)
  unfolding timeout_trace record_flow_timeout record_timeout
  timeout_trace-IsSound record_events clock key probe s sound = chosen key.is_pmtud record_events
    where
      timed : Session f64
      timed =
          with_hop f64 key.probe_id.ttl
            (λ h. record_flow_timeout f64 probe.flow_id (record_timeout f64 h)) s

      timed-IsSound : IsSound timed
      timed-IsSound = with_hop-IsSound key.probe_id.ttl _ s (λ h. refl) sound

      chosen :
          (of_search events : Bool)
          → IsSound (
              if of_search
              then s
              else if events
              then record_event f64 (timeout_event (offset_ms f64 clock s) key probe) timed
              else timed)
      chosen true events = sound
      chosen false true = record_event-IsSound _ timed timed-IsSound
      chosen false false = timed-IsSound

  -- So does a probe that timed out, at the end of a round or of the run.
  pub record_pending_timeout-IsSound :
      (record_events update_pmtud : Bool) (clock : Clock) (key : PendingKey) (probe : PendingProbe)
      (s : Session f64)
      → IsSound s
      → IsSound (record_pending_timeout f64 record_events update_pmtud clock key probe s)
  unfolding record_pending_timeout
  record_pending_timeout-IsSound record_events true clock key probe s sound =
      change_pmtud-IsSound probe.packet_size record_failure _ record_failure-IsValid
        (timeout_trace-IsSound record_events clock key probe s sound)
  record_pending_timeout-IsSound record_events false clock key probe s sound =
      timeout_trace-IsSound record_events clock key probe s sound
