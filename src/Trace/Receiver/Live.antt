-- ===== src/Trace/Receiver/Live.antt =====
-- trace/receiver.rs and state/session.rs: what the receiver records in a run, step by step, and what
-- the steps do to the hops that a replay shows.
use ttl.Base.{
  ℕ, ◌≡◌, refl, ap, ◌∙◌, Bool, true, false, Option, none, some, List, [], ◌∷◌, ◌++◌, ◌==◌, is_some,
  Bool-cases, inl, inr, if◌then◌else◌, ◌&&◌,
}
use mathlib.Core.List.{append-nil, append_assoc}
use ttl.Base.Net.{IpAddr, ip_eq}
use ttl.Base.Float.{Float}
use ttl.Base.Windows.{push_capped}
use ttl.Probe.Response.{IcmpResponseType}
use ttl.State.Hop.{
  Hop, record_flow_response, record_nat_check, record_response_ttl, record_ttl_manip_check,
  record_flow_timeout, record_timeout, record_response_with_extensions,
  record_response_detecting_flaps_with_extensions,
}
use ttl.State.Hop.View
use ttl.State.Hop.View.{View, view, answered, response-view}
use ttl.State.Session.Frame.{with_hop-frame}
use ttl.State.Session.{
  Session, ProbeEvent, Clock, reach, record_event, with_hop, offset_ms, apply_replay_event,
}
use ttl.State.Session.Replay.{views, views-with_hop, happen}
use ttl.Trace.Pending.{PendingProbe, PendingKey}
use ttl.Trace.Receiver.Apply.{
  BatchedResponse, ReceiverConfig, is_ttl_exceeded, is_echo_reply, check_response_ttl,
  check_quoted_ttl, answer_hop, reply_event, answer_trace, check_destination, apply_response,
  timeout_event, timeout_trace, record_pending_timeout,
}

module _ (f64 : Float) where
  check_response_ttl-view :
      (single : Bool) (ttl : Option ℕ) (ipv6 : Bool) (h : Hop f64)
      → view f64 (check_response_ttl f64 single ttl ipv6 h) ≡ view f64 h
  unfolding view record_response_ttl
  check_response_ttl-view true (some ttl) ipv6 h = refl
  check_response_ttl-view false (some ttl) ipv6 h = refl
  check_response_ttl-view single none ipv6 h = refl

  check_quoted_ttl-view :
      (t : IcmpResponseType) (quoted : Option ℕ) (h : Hop f64)
      → view f64 (check_quoted_ttl f64 t quoted h) ≡ view f64 h
  unfolding view record_ttl_manip_check
  check_quoted_ttl-view t none h = refl
  check_quoted_ttl-view t (some quoted) h = elim (Bool-cases (is_ttl_exceeded t)) [
    | inl exceeded ↦ rw exceeded refl
    | inr other ↦ rw other refl
  ]

  flow_nat-view :
      (flow : ℕ) (ip : IpAddr) (rtt : ℕ) (orig ret : Option ℕ) (h : Hop f64)
      → view f64 (record_nat_check f64 orig ret (record_flow_response f64 flow ip rtt h))
        ≡ view f64 h
  unfolding view record_nat_check record_flow_response
  flow_nat-view flow ip rtt orig ret h = refl

  answer_hop-view :
      (config : ReceiverConfig) (resp : BatchedResponse) (h : Hop f64)
      → view f64 (answer_hop f64 config resp h) ≡ answered resp.responder (view f64 h)
  unfolding answer_hop
  answer_hop-view config resp h =
      let single = config.num_flows == 1 in
      let hop : Hop f64 =
        if single
        then record_response_detecting_flaps_with_extensions f64 resp.responder resp.rtt
            resp.mpls_labels resp.interface_info h
        else record_response_with_extensions f64 resp.responder resp.rtt resp.mpls_labels
            resp.interface_info h in
      check_quoted_ttl-view resp.response_type resp.quoted_ttl _
      ∙ check_response_ttl-view single resp.response_ttl config.ipv6 _
      ∙ flow_nat-view resp.flow_id resp.responder resp.rtt resp.original_src_port
          resp.returned_src_port hop
      ∙ response-view f64 single resp.responder resp.rtt resp.mpls_labels resp.interface_info h

  check_destination-keeps :
      (resp : BatchedResponse) (s : Session f64)
      → (views f64 (check_destination f64 resp s) ≡ views f64 s)
        × ((check_destination f64 resp s).events ≡ s.events)
  unfolding check_destination reach
  check_destination-keeps resp s =
      elim (Bool-cases (is_echo_reply resp.response_type && ip_eq resp.responder resp.target)) [
        | inl there ↦ rw there (refl, refl)
        | inr other ↦ rw other (refl, refl)
      ]

  pub events-with_hop :
      (ttl : ℕ) (f : Hop f64 → Hop f64) (s : Session f64) → (with_hop f64 ttl f s).events ≡ s.events
  events-with_hop ttl f s = ap (λ (t : Session f64). t.events) (with_hop-frame f64 ttl f s)

  pub answer_trace-eq :
      (config : ReceiverConfig) (clock : Clock) (resp : BatchedResponse) (s : Session f64)
      → resp.packet_size ≡ none
      → answer_trace f64 config clock resp s
        ≡ record_event f64
            (reply_event (offset_ms f64 clock s) resp)
            (with_hop f64 resp.probe_id.ttl (answer_hop f64 config resp) s)
  unfolding answer_trace
  answer_trace-eq config clock resp s e =
      ap
        (λ (o : Option ℕ).
          if is_some o
          then s
          else record_event f64 (reply_event (offset_ms f64 clock s) resp)
              (with_hop f64 resp.probe_id.ttl (answer_hop f64 config resp) s))
        e

  -- One thing that the receiver records of a probe of the trace.
  pub data LiveStep : Type 0 where
    responded : Clock → (resp : BatchedResponse) → resp.packet_size ≡ none → LiveStep
    expired : Clock → (key : PendingKey) → PendingProbe → key.is_pmtud ≡ false → LiveStep

  unfoldable pub live_step : ReceiverConfig → LiveStep → Session f64 → Session f64
  live_step config (responded clock resp e) s = apply_response f64 config clock resp s
  live_step config (expired clock key probe e) s =
      record_pending_timeout f64 true true clock key probe s

  -- The event that it records.
  pub event_of : LiveStep → Session f64 → ProbeEvent
  event_of (responded clock resp e) s = reply_event (offset_ms f64 clock s) resp
  event_of (expired clock key probe e) s = timeout_event (offset_ms f64 clock s) key probe

  -- A step does to the views what its event says, and records the event.
  pub live_step-happens :
      (config : ReceiverConfig) (step : LiveStep) (s : Session f64)
      → (views f64 (live_step config step s)
          ≡ happen (event_of step s).ttl (event_of step s).outcome (views f64 s))
        × ((live_step config step s).events ≡ s.events ++ (event_of step s ∷ []))
  unfolding live_step event_of apply_response record_event happen record_pending_timeout
      timeout_trace
  live_step-happens config (responded clock resp e) s =
      let f = answer_hop f64 config resp in
      let kept = check_destination-keeps resp (answer_trace f64 config clock resp s) in
      let shown =
        views-with_hop f64 resp.probe_id.ttl f (answered resp.responder) s
          (answer_hop-view config resp) in
      let old = events-with_hop resp.probe_id.ttl f s in
      let traced = answer_trace-eq config clock resp s e in
      (
        kept.0 ∙ ap (views f64) traced ∙ shown,
        kept.1
            ∙ ap (λ (t : Session f64). t.events) traced
            ∙ ap (λ es. es ++ (reply_event (offset_ms f64 clock s) resp ∷ [])) old,
      )
  live_step-happens config (expired clock key probe e) s =
      let f = λ (h : Hop f64). record_flow_timeout f64 probe.flow_id (record_timeout f64 h) in
      let shown =
        views-with_hop f64 key.probe_id.ttl f View.timed_out s (λ h.
          unfold view View.timed_out record_timeout record_flow_timeout push_capped in refl) in
      let old = events-with_hop key.probe_id.ttl f s in
      rw e (shown, ap (λ es. es ++ (timeout_event (offset_ms f64 clock s) key probe ∷ [])) old)

  unfoldable pub live : ReceiverConfig → List LiveStep → Session f64 → Session f64
  live config [] s = s
  live config (step ∷ steps) s = live config steps (live_step config step s)

  unfoldable pub replays : List ProbeEvent → Session f64 → Session f64
  replays [] s = s
  replays (event ∷ events) s = replays events (apply_replay_event f64 event s)

  -- The events that the steps record, in order.
  unfoldable pub recorded : ReceiverConfig → List LiveStep → Session f64 → List ProbeEvent
  recorded config [] s = []
  recorded config (step ∷ steps) s =
      event_of step s ∷ recorded config steps (live_step config step s)

  pub live-events :
      (config : ReceiverConfig) (steps : List LiveStep) (s : Session f64)
      → (live config steps s).events ≡ s.events ++ recorded config steps s
  unfolding live recorded
  live-events config [] s = rw append-nil refl
  live-events config (step ∷ steps) s =
      live-events config steps (live_step config step s)
      ∙ ap (λ es. es ++ recorded config steps (live_step config step s))
          (live_step-happens config step s).1
      ∙ append_assoc s.events (event_of step s ∷ [])
          (recorded config steps (live_step config step s))

  pub config-with_hop :
      (ttl : ℕ) (f : Hop f64 → Hop f64) (s : Session f64) → (with_hop f64 ttl f s).config ≡ s.config
  config-with_hop ttl f s = ap (λ (t : Session f64). t.config) (with_hop-frame f64 ttl f s)
