-- ===== src/Trace/Receiver/Replayed.antt =====
-- trace/receiver.rs and state/session.rs: what the receiver records in a run, and the replay of its
-- events on a new session.
use ttl.Base.{ℕ, ◌≡◌, refl, sym, ap, ◌∙◌, false, List, [], ◌∷◌, Bool-cases, inl, inr, if◌then◌else◌}
use ttl.Base.Float.{Float}
use ttl.Base.Windows.{push_capped}
use ttl.State.Hop.{Hop, record_flow_timeout, record_timeout}
use ttl.State.Hop.View
use ttl.State.Hop.View.{View, view, answered, response-view}
use ttl.State.Session
use ttl.State.Session.{
  Session, ProbeEvent, Clock, Target, reach, record_event, with_hop, offset_ms, has_hop,
  apply_replay_event, replay_outcome, ProbeOutcome, reply, late_reply,
}
use ttl.State.Session.Replay.{with_view, views, views-with_hop, happen, apply_replay_event-views}
use ttl.Setup.Config.{Config}
use ttl.Trace.Pending.{PendingProbe, PendingKey}
use ttl.Trace.Receiver.Apply.{ReceiverConfig, timeout_trace, record_pending_timeout}
use ttl.Trace.Receiver.Live.{
  LiveStep, live_step, event_of, live_step-happens, live, replays, recorded, live-events,
  events-with_hop,
}

module _ (f64 : Float) where
  -- The replay of the events shows the hops as the steps left them.
  pub replays-live :
      (config : ReceiverConfig) (steps : List (LiveStep f64)) (s r : Session f64)
      → views f64 r ≡ views f64 s
      → views f64 (replays f64 (recorded f64 config steps s) r)
        ≡ views f64 (live f64 config steps s)
  unfolding replays live recorded
  replays-live config [] s r same = same
  replays-live config (step ∷ steps) s r same =
      let event = event_of f64 step s in
      replays-live config steps (live_step f64 config step s) (apply_replay_event f64 event r) (
        apply_replay_event-views f64 event r
        ∙ ap (happen event.ttl event.outcome) same
        ∙ sym (live_step-happens f64 config step s).0)

  -- The end of the run: the probes that still wait, in any order, each recorded at some time.
  unfoldable pub flush : List (Clock × PendingKey × PendingProbe) → Session f64 → Session f64
  flush [] s = s
  flush ((clock, key, probe) ∷ more) s =
      flush more (record_pending_timeout f64 false false clock key probe s)

  -- What such probes do to the views: a timeout at the hop of each probe of the trace.
  pub with_losses : List (Clock × PendingKey × PendingProbe) → List View → List View
  with_losses [] vs = vs
  with_losses ((clock, key, probe) ∷ more) vs =
      with_losses more (if key.is_pmtud then vs else with_view key.probe_id.ttl View.timed_out vs)

  flushed :
      (clock : Clock) (key : PendingKey) (probe : PendingProbe) (s : Session f64)
      → let t = record_pending_timeout f64 false false clock key probe s in
        (views f64 t ≡ (
          if key.is_pmtud
          then views f64 s
          else with_view key.probe_id.ttl View.timed_out (views f64 s)))
        × (t.events ≡ s.events)
  unfolding record_pending_timeout timeout_trace
  flushed clock key probe s = elim (Bool-cases key.is_pmtud) [
    | inl of_search ↦ rw of_search (refl, refl)
    | inr of_trace ↦
        let f = λ (h : Hop f64). record_flow_timeout f64 probe.flow_id (record_timeout f64 h) in
        rw of_trace (
          views-with_hop f64 key.probe_id.ttl f View.timed_out s (λ h.
              unfold view View.timed_out record_timeout record_flow_timeout push_capped in refl),
          events-with_hop f64 key.probe_id.ttl f s,
        )
  ]

  pub flush-with_losses :
      (pending : List (Clock × PendingKey × PendingProbe)) (s : Session f64)
      → (views f64 (flush pending s) ≡ with_losses pending (views f64 s))
        × ((flush pending s).events ≡ s.events)
  unfolding flush with_losses
  flush-with_losses [] s = (refl, refl)
  flush-with_losses ((clock, key, probe) ∷ more) s =
      let first = flushed clock key probe s in
      let rest =
        flush-with_losses more (record_pending_timeout f64 false false clock key probe s) in
      (rest.0 ∙ ap (with_losses more) first.0, rest.1 ∙ first.1)

  -- The receiver's part of a run, up to its end: any steps by which it records answers, none of them
  -- late, and timeouts of probes of the trace, and then the probes that wait at the end, in any order.
  -- The events of the session it leaves, replayed on a new session of the same target and
  -- configuration, show of every hop its answers, its timeouts, the answers of each responder and the
  -- sparkline: those of the session itself, but for a timeout for each probe of the trace that waited
  -- at the end, which leaves no event.
  pub replays-live-new :
      (config : ReceiverConfig) (steps : List (LiveStep f64))
      (pending : List (Clock × PendingKey × PendingProbe)) (target : Target) (run_config : Config)
      (now instant now' instant' : ℕ)
      → let s =
          flush pending (live f64 config steps (Session.new f64 target run_config now instant)) in
        views f64 s
        ≡ with_losses pending
            (views f64 (replays f64 s.events (Session.new f64 target run_config now' instant')))
  unfolding Session.new
  replays-live-new config steps pending target run_config now instant now' instant' =
      let s0 = Session.new f64 target run_config now instant in
      let r0 = Session.new f64 target run_config now' instant' in
      let ended = flush-with_losses pending (live f64 config steps s0) in
      ended.0
      ∙ ap (with_losses pending) (
          sym (replays-live config steps s0 r0 refl)
          ∙ ap (λ es. views f64 (replays f64 es r0))
              (sym (ended.1 ∙ live-events f64 config steps s0)))
