-- ===== src/Trace/Engine/Reachable.antt =====
-- trace/engine.rs, trace/receiver.rs, state/ratelimit.rs and state/session.rs: the changes of a
-- session in a live run, and what holds of a session after any of them in any order.
use ttl.Base.{
  ℕ, ◌%◌, ◌≤◌, ◌≡◌, refl, sym, subst, ap, ◌∙◌, Bool, true, false, Option, none, some, List, [], ◌∷◌,
  length, arith, is_some, if◌then◌else◌,
}
use ttl.Base.Float.{Float}
use ttl.Base.Net.{IpAddr, is_ipv6}
use ttl.Setup.Config.{Config}
use ttl.State.Pmtud
use ttl.State.Pmtud.{
  PmtudState, PmtudPhase, searching, waiting_for_destination, complete, start_search,
}
use ttl.State.Pmtud.Bounds.{IsValid, new-IsValid, start_search-IsValid}
use ttl.State.Hop.{Hop, record_sent, record_flow_sent}
use ttl.State.Responder.{ResponderStats}
use ttl.State.RateLimitInfo.{RateLimitInfo}
use ttl.State.RateLimit.{judge, Verdict, verdicts, apply_verdicts, analyze_rate_limiting}
use ttl.State.Session
use ttl.State.Session.{
  Session, Target, Clock, with_hop, count_sent, record_event, restart_pmtud, reset_stats, reset_hop,
  under_write_guard,
}
use ttl.State.Session.Invariant.{IsTtl, new-IsWellFormed, count_sent-IsWellFormed}
use ttl.State.Session.Reset.{reset_stats-eq-new}
use ttl.Trace.Pending.{PendingProbe, PendingKey, PendingMap}
use ttl.Trace.Receiver.Apply.{
  BatchedResponse, ReceiverConfig, apply_response, record_pending_timeout,
}
use ttl.Trace.Receiver.Steps.{
  SearchIsValid, IsSound, with_hop-IsSound, record_event-IsSound, apply_response-IsSound,
  record_pending_timeout-IsSound,
}
use ttl.Trace.Engine.{
  clamp, give_up, ready_search, on_search, ready_session, ready_at, record_probe_sent,
  check_pmtud_ready, handle_pmtud_df_error, clamp_pmtud,
}
use ttl.Trace.Engine.Poll.{Datagram, AllInRange, poll_ipv6_echo_reply, poll_ipv6_echo_reply-IsSound}

-- A probe that the local interface refuses, be its size still the one under test or not.
clamp-IsValid : (size : ℕ) (p : PmtudState) → size ≤ 9216 → IsValid p → IsValid (clamp size p)
unfolding clamp
clamp-IsValid size p h v = ground arith

give_up-IsValid : (p : PmtudState) → IsValid p → IsValid (give_up p)
give_up-IsValid p v = ground arith

ready_search-IsValid :
    (dest_ttl : ℕ) (p : PmtudState) → IsValid p → IsValid (ready_search dest_ttl p).1
ready_search-IsValid dest_ttl p v = ground (arith, start_search-IsValid p)

started-IsValid :
    (wanted ipv6 jumbo : Bool)
    → SearchIsValid (if wanted then some (Pmtud.new ipv6 jumbo) else none)
started-IsValid true ipv6 jumbo = new-IsValid ipv6 jumbo
started-IsValid false ipv6 jumbo = tt

module _ (f64 : Float) where
  -- One change of a session in a run: a probe is sent, the path MTU search is begun, a probe of the
  -- search is too large to be sent, the search is given up, a response arrives for a probe of one of
  -- the hops, the engine itself reads Echo Replies, a probe is given up, a late response is recorded,
  -- the hops are analysed for rate limits, a lookup writes what it found to the responders of a hop,
  -- the addresses of the host are set, the events are written out, the user pauses or resumes, or
  -- resets the statistics, and the count of write guards goes on. The size that is too large is the
  -- one that was read before the probe was sent; the search may have gone on since.
  pub data Step : Session f64 → Session f64 → Type 0 where
    sent : (ttl flow_id : ℕ) (s : Session f64) → Step s (record_probe_sent f64 ttl flow_id s)
    sent_search : (s : Session f64) → Step s (count_sent f64 s)
    ready : (s : Session f64) → Step s (check_pmtud_ready f64 s).1
    too_large : (size : ℕ) (s : Session f64) → size ≤ 9216 → Step s (clamp_pmtud f64 size s)
    no_df :
        (unsupported : Bool) (s : Session f64) → Step s (handle_pmtud_df_error f64 unsupported s)
    responded :
        (config : ReceiverConfig) (clock : Clock) (resp : BatchedResponse) (s : Session f64)
        → IsTtl (length s.hops) (some resp.probe_id.ttl)
        → Step s (apply_response f64 config clock resp s)
    polled :
        (target : IpAddr) (waiting : List Datagram) (pending : PendingMap) (s : Session f64)
        → AllInRange (length s.hops) pending
        → Step s (poll_ipv6_echo_reply f64 target waiting (pending, s)).1
    expired :
        (events update : Bool) (clock : Clock) (key : PendingKey) (probe : PendingProbe)
        (s : Session f64)
        → Step s (record_pending_timeout f64 events update clock key probe s)
    late : (event : Session.ProbeEvent) (s : Session f64) → Step s (record_event f64 event s)
    analyzed : (s : Session f64) → Step s (analyze_rate_limiting f64 s)
    looked_up :
        (ttl : ℕ) (f : List (IpAddr × ResponderStats f64) → List (IpAddr × ResponderStats f64))
        (s : Session f64)
        → Step s (with_hop f64 ttl (λ h. record h { responders = f h.responders }) s)
    placed :
        (source_ip gateway : Option IpAddr) (s : Session f64)
        → Step s (record s { source_ip = source_ip; gateway = gateway })
    written : (s : Session f64) → Step s (record s { events = [] })
    paused : (b : Bool) (s : Session f64) → Step s (record s { paused = b })
    reset : (now instant : ℕ) (s : Session f64) → Step s (reset_stats f64 now instant s)
    released : (s : Session f64) → Step s (under_write_guard f64 (λ t. t) s)

  pub data Reachable (s : Session f64) : Session f64 → Type 0 where
    here : Reachable s s
    next : {t u : Session f64} → Reachable s t → Step t u → Reachable s u

  with_search-IsSound :
      (q : Option PmtudState) (s : Session f64)
      → is_some q ≡ is_some s.pmtud
      → (SearchIsValid s.pmtud → SearchIsValid q)
      → IsSound f64 s
      → IsSound f64 (record s { pmtud = q })
  with_search-IsSound q s same keeps (w, v) = (
    record {
      indexed = w.indexed;
      full = w.full;
      searching = same ∙ w.searching;
      reached = w.reached;
      near = w.near;
    },
    keeps v,
  )

  on_search-IsSound :
      (f : PmtudState → PmtudState) (s : Session f64)
      → ((p : PmtudState) → s.pmtud ≡ some p → IsValid p → IsValid (f p))
      → IsSound f64 s
      → IsSound f64 (record s { pmtud = on_search f s.pmtud })
  on_search-IsSound f s keeps sound =
      with_search-IsSound (on_search f s.pmtud) s (same s.pmtud) (valid s.pmtud refl) sound
    where
      same : (q : Option PmtudState) → is_some (on_search f q) ≡ is_some q
      same none = refl
      same (some p) = refl

      valid :
          (q : Option PmtudState) → s.pmtud ≡ q → SearchIsValid q → SearchIsValid (on_search f q)
      valid none e v = v
      valid (some p) e v = keeps p e v

  ready_session-IsSound :
      (dest_ttl : ℕ) (q : Option PmtudState) (s : Session f64)
      → s.pmtud ≡ q
      → IsSound f64 s
      → IsSound f64 (ready_session f64 dest_ttl q s).1
  ready_session-IsSound dest_ttl none s e sound = sound
  ready_session-IsSound dest_ttl (some p) s e sound =
      with_search-IsSound (some (ready_search dest_ttl p).1) s (sym (ap is_some e))
        (λ v. ready_search-IsValid dest_ttl p (subst SearchIsValid e v)) sound

  check_pmtud_ready-IsSound :
      (s : Session f64) → IsSound f64 s → IsSound f64 (check_pmtud_ready f64 s).1
  unfolding check_pmtud_ready
  check_pmtud_ready-IsSound s sound = chosen s.config.pmtud
    where
      at : (d : Option ℕ) → IsSound f64 (ready_at f64 d s).1
      at none = sound
      at (some d) = ready_session-IsSound d s.pmtud s refl sound

      chosen :
          (wanted : Bool) → IsSound f64 (if wanted then ready_at f64 s.dest_ttl s else (none, s)).1
      chosen true = at s.dest_ttl
      chosen false = sound

  clamp_pmtud-IsSound :
      (size : ℕ) (s : Session f64)
      → size ≤ 9216
      → IsSound f64 s
      → IsSound f64 (clamp_pmtud f64 size s)
  unfolding clamp_pmtud
  clamp_pmtud-IsSound size s h sound =
      on_search-IsSound (clamp size) s (λ p there v. clamp-IsValid size p h v) sound

  handle_pmtud_df_error-IsSound :
      (unsupported : Bool) (s : Session f64)
      → IsSound f64 s
      → IsSound f64 (handle_pmtud_df_error f64 unsupported s)
  unfolding handle_pmtud_df_error
  handle_pmtud_df_error-IsSound true s sound =
      on_search-IsSound give_up s (λ p there v. give_up-IsValid p v) sound
  handle_pmtud_df_error-IsSound false s sound = sound

  ttl-judge :
      (info : Option (RateLimitInfo f64)) (downstream : Option f64.F64) (h : Hop f64)
      → (judge f64 info downstream h).ttl ≡ h.ttl
  unfolding judge
  ttl-judge none downstream h = refl
  ttl-judge (some info) downstream h = refl

  apply_verdicts-IsSound :
      (found : List (Verdict f64)) (s : Session f64)
      → IsSound f64 s
      → IsSound f64 (apply_verdicts f64 found s)
  apply_verdicts-IsSound [] s sound = sound
  apply_verdicts-IsSound ((ttl, info, downstream) ∷ found) s sound =
      apply_verdicts-IsSound found _
        (with_hop-IsSound f64 ttl _ s (ttl-judge info downstream) sound)

  reset_stats-IsSound :
      (now instant : ℕ) (s : Session f64)
      → IsSound f64 s
      → IsSound f64 (reset_stats f64 now instant s)
  reset_stats-IsSound now instant s (w, v) =
      let fresh = new-IsWellFormed f64 s.target s.config now instant in
      subst (IsSound f64) (sym (reset_stats-eq-new f64 now instant s w)) (
        record {
          indexed = fresh.indexed;
          full = fresh.full;
          searching = fresh.searching;
          reached = fresh.reached;
          near = fresh.near;
        },
        unfold Session.new in
            started-IsValid s.config.pmtud (is_ipv6 s.target.resolved) s.config.jumbo,
      )

  -- Only these fields matter.
  same-IsSound :
      (s t : Session f64)
      → t.hops ≡ s.hops
      → t.config ≡ s.config
      → t.pmtud ≡ s.pmtud
      → t.complete ≡ s.complete
      → t.dest_ttl ≡ s.dest_ttl
      → IsSound f64 s
      → IsSound f64 t
  same-IsSound s t hops config found ended dest (w, v) = (
    record {
      indexed = rw hops w.indexed;
      full = rw (hops, config) w.full;
      searching = rw (found, config) w.searching;
      reached = rw (dest, ended) w.reached;
      near = rw (hops, dest) w.near;
    },
    rw found v,
  )

  -- Every change keeps a session sound.
  Step-IsSound : {s t : Session f64} → Step s t → IsSound f64 s → IsSound f64 t
  unfolding record_probe_sent analyze_rate_limiting under_write_guard
  Step-IsSound (sent ttl flow_id s) (w, v) =
      with_hop-IsSound f64 ttl _ _ (λ h. unfold record_sent record_flow_sent in refl)
        (count_sent-IsWellFormed f64 s w, v)
  Step-IsSound (sent_search s) (w, v) = (count_sent-IsWellFormed f64 s w, v)
  Step-IsSound (ready s) sound = check_pmtud_ready-IsSound s sound
  Step-IsSound (too_large size s h) sound = clamp_pmtud-IsSound size s h sound
  Step-IsSound (no_df unsupported s) sound = handle_pmtud_df_error-IsSound unsupported s sound
  Step-IsSound (responded config clock resp s near) sound =
      apply_response-IsSound f64 config clock resp s near sound
  Step-IsSound (polled target waiting pending s near) sound =
      poll_ipv6_echo_reply-IsSound f64 target waiting pending s near sound
  Step-IsSound (expired events update clock key probe s) sound =
      record_pending_timeout-IsSound f64 events update clock key probe s sound
  Step-IsSound (late event s) sound = record_event-IsSound f64 event s sound
  Step-IsSound (analyzed s) sound =
      apply_verdicts-IsSound (verdicts f64 (length s.hops % 256) 1 s) s sound
  Step-IsSound (looked_up ttl f s) sound =
      with_hop-IsSound f64 ttl (λ h. record h { responders = f h.responders }) s (λ h. refl) sound
  Step-IsSound (placed source_ip gateway s) sound = same-IsSound s _ refl refl refl refl refl sound
  Step-IsSound (written s) sound = same-IsSound s _ refl refl refl refl refl sound
  Step-IsSound (paused b s) sound = same-IsSound s _ refl refl refl refl refl sound
  Step-IsSound (released s) sound = same-IsSound s _ refl refl refl refl refl sound
  Step-IsSound (reset now instant s) sound = reset_stats-IsSound now instant s sound

  Reachable-IsSound_from : {s t : Session f64} → IsSound f64 s → Reachable s t → IsSound f64 t
  Reachable-IsSound_from sound here = sound
  Reachable-IsSound_from sound (next run step) =
      Step-IsSound step (Reachable-IsSound_from sound run)

  -- At any time of a live run, after any changes of the session in any order (probes sent, refused for
  -- a size of at most 9216 bytes or given up, answers read by the receiver or the engine to probes of
  -- the session's times to live, late answers, analyses, lookups, pauses and resets): the session has a hop for each time to live up to the limit, in order; it is complete exactly if it
  -- knows the time to live of its destination, which is one of its hops'; it searches the path MTU
  -- exactly if the run asks for it, and the search keeps its bounds: the upper at most 9216, the
  -- counters below 2, and, while it goes on, the size under test above the lower bound and at most
  -- the upper one, which stand eight or more apart.
  pub Reachable-IsSound :
      (target : Target) (config : Config) (now instant : ℕ) {t : Session f64}
      → Reachable (Session.new f64 target config now instant) t
      → IsSound f64 t
  unfolding Session.new
  Reachable-IsSound target config now instant run =
      Reachable-IsSound_from
        (
          new-IsWellFormed f64 target config now instant,
          started-IsValid config.pmtud (is_ipv6 target.resolved) config.jumbo,
        )
        run
