-- ===== src/Tui/Replay/Recorded.antt =====
-- trace/receiver.rs, main.rs and tui/app.rs: a run, saved and replayed to its end.
use ttl.Base.{
  ℕ, ◌≤◌, ◌≡◌, ◌∙◌, refl, sym, ap, false, some, List, [], ◌∷◌, length, take, take_all, ◌>>=◌, arith,
  Bool-cases, inl, inr, ◌&&◌,
}
use ttl.Base.Net.{ip_eq}
use ttl.Base.Float.{Float}
use ttl.Setup.Config.{Config}
use ttl.State.Hop.{Hop, record_timeout, record_flow_timeout}
use ttl.State.Session
use ttl.State.Session.{Session, ProbeEvent, Target, Clock, reach, record_event, offset_ms, with_hop}
use ttl.State.Session.Replay.{views}
use ttl.Trace.Pending.{PendingProbe, PendingKey}
use ttl.Trace.Receiver.Apply.{
  BatchedResponse, ReceiverConfig, apply_response, check_destination, answer_trace, answer_hop,
  is_echo_reply, record_pending_timeout, timeout_trace,
}
use ttl.Trace.Receiver.Live.{
  LiveStep, responded, expired, live_step, live, replays, recorded, live-events, config-with_hop,
  answer_trace-eq,
}
use ttl.Trace.Receiver.Replayed.{replays-live, flush, with_losses, flush-with_losses}
use ttl.Tui.Replay.{Screen, Command, animate, opened, run_all, seek_replay_to_end}
use ttl.Tui.Replay.Sorted.{IsSorted, sort_by_offset_sorted}
use ttl.Tui.Replay.Seek.{seek_replay_to_end-IsNext}
use ttl.Tui.Replay.Keys.{AllKept, AllKept-AllAllow}
use ttl.Tui.Replay.Steps.{opened-IsNext, run_all-IsNext}
use ttl.Tui.Replay.Run.{showing_all, animates}

module _ (f64 : Float) where
  config-check_destination :
      (resp : BatchedResponse) (s : Session f64) → (check_destination f64 resp s).config ≡ s.config
  unfolding check_destination reach
  config-check_destination resp s =
      elim (Bool-cases (is_echo_reply resp.response_type && ip_eq resp.responder resp.target)) [
        | inl there ↦ rw there refl
        | inr other ↦ rw other refl
      ]

  config-live_step :
      (config : ReceiverConfig) (step : LiveStep f64) (s : Session f64)
      → (live_step f64 config step s).config ≡ s.config
  unfolding live_step apply_response record_event record_pending_timeout timeout_trace
  config-live_step config (responded clock resp e) s =
      config-check_destination resp (answer_trace f64 config clock resp s)
      ∙ ap (λ (t : Session f64). t.config) (answer_trace-eq f64 config clock resp s e)
      ∙ config-with_hop f64 resp.probe_id.ttl (answer_hop f64 config resp) s
  config-live_step config (expired clock key probe e) s =
      let f = λ (h : Hop f64). record_flow_timeout f64 probe.flow_id (record_timeout f64 h) in
      rw e (config-with_hop f64 key.probe_id.ttl f s)

  config-live :
      (config : ReceiverConfig) (steps : List (LiveStep f64)) (s : Session f64)
      → (live f64 config steps s).config ≡ s.config
  unfolding live
  config-live config [] s = refl
  config-live config (step ∷ steps) s =
      config-live config steps (live_step f64 config step s) ∙ config-live_step config step s

  config-flush :
      (pending : List (Clock × PendingKey × PendingProbe)) (s : Session f64)
      → (flush f64 pending s).config ≡ s.config
  unfolding flush record_pending_timeout timeout_trace
  config-flush [] s = refl
  config-flush ((clock, key, probe) ∷ more) s =
      config-flush more (record_pending_timeout f64 false false clock key probe s)
      ∙ elim (Bool-cases key.is_pmtud) [
        | inl of_search ↦ rw of_search refl
        | inr of_trace ↦
            let f = λ (h : Hop f64). record_flow_timeout f64 probe.flow_id (record_timeout f64 h) in
            rw of_trace (config-with_hop f64 key.probe_id.ttl f s)
      ]

  module _ (f32 : Float) (widen : f32.F64 → f64.F64) where
    replayed_views :
        (config : ReceiverConfig) (steps : List (LiveStep f64))
        (pending : List (Clock × PendingKey × PendingProbe)) (target : Target) (run_config : Config)
        (now instant : ℕ) (saved : Session f64) (clock : Clock)
        → saved
          ≡ flush f64 pending
              (live f64 config steps (Session.new f64 target run_config now instant))
        → views f64 saved
          ≡ with_losses f64 pending (
              views f64 (
                replays f64 saved.events
                  (Session.new f64 saved.target saved.config clock.now clock.instant)))
    unfolding Session.new
    replayed_views config steps pending target run_config now instant saved clock made =
        let s0 = Session.new f64 target run_config now instant in
        let r0 = λ (t : Target) (c : Config). Session.new f64 t c clock.now clock.instant in
        let kept : saved.config ≡ run_config =
          ap (λ (t : Session f64). t.config) made
          ∙ config-flush pending (live f64 config steps s0)
          ∙ config-live config steps s0 in
        let fresh : views f64 (r0 saved.target saved.config) ≡ views f64 s0 =
          ap (λ c. views f64 (r0 saved.target c)) kept in
        let ended = flush-with_losses f64 pending (live f64 config steps s0) in
        let events : saved.events ≡ recorded f64 config steps s0 =
          ap (λ (t : Session f64). t.events) made ∙ ended.1 ∙ live-events f64 config steps s0 in
        ap (views f64) made
        ∙ ended.0
        ∙ ap (with_losses f64 pending) (
            sym (replays-live f64 config steps s0 (r0 saved.target saved.config) fresh)
            ∙ ap (λ xs. views f64 (replays f64 xs (r0 saved.target saved.config))) (sym events))

    -- The session that the receiver leaves at the end of a run, saved with events in the order of
    -- their offsets, and replayed: whatever keys but r and whatever ticks come, the key to the end then
    -- shows of every hop its answers, its timeouts, the answers of each responder and the sparkline as
    -- the run showed them, but for a timeout for each probe of the trace that waited at the end, which
    -- leaves no event. This holds for any steps by which the receiver records answers, none of them
    -- late, and timeouts of probes of the trace, and any order of the probes that wait at the end.
    pub animate-live :
        (config : ReceiverConfig) (steps : List (LiveStep f64))
        (pending : List (Clock × PendingKey × PendingProbe)) (target : Target) (run_config : Config)
        (now instant : ℕ) (saved : Session f64) (speed : f32.F64) (clock : Clock)
        (commands : List (Clock × Command f32 f64 widen)) (e : ProbeEvent) (es : List ProbeEvent)
        → saved
          ≡ flush f64 pending
              (live f64 config steps (Session.new f64 target run_config now instant))
        → saved.events ≡ e ∷ es
        → IsSorted saved.events
        → AllKept f32 f64 widen commands
        → (w : Screen f32 f64 widen) × (s : Session f64) × ((animate f32 f64 widen saved speed clock
              >>= (λ w0. run_all f32 f64 widen commands w0)
              >>= λ w1. seek_replay_to_end f32 f64 widen w1)
            ≡ some w)
          × (w.session ≡ some s)
          × (views f64 saved ≡ with_losses f64 pending (views f64 s))
    animate-live config steps pending target run_config now instant saved speed clock commands e es
          made some_events sorted no_reset =
        let P : ℕ → Type 0 = λ i. i ≡ 0 in
        let begun = opened-IsNext f32 f64 widen P refl saved speed clock in
        let (w1, done, next) =
          run_all-IsNext f32 f64 widen saved.target saved.config P refl commands
            (opened f32 f64 widen saved speed clock)
            (AllKept-AllAllow f32 f64 widen P commands no_reset) begun.state in
        let (w, ended, last, at_end) =
          seek_replay_to_end-IsNext f64 saved.target saved.config P refl f32 widen w1 next.state in
        let same : w.replay.events ≡ saved.events =
          last.same ∙ next.same ∙ begun.same ∙ sort_by_offset_sorted saved.events sorted in
        let (s, there, shown) =
          showing_all f32 f64 widen saved.target saved.config w.replay.events w.replay.current_index
            w.session last.state.shown in
        let far : length w.replay.events ≤ w.replay.current_index =
          omega (arith, at_end, ap length last.same) in
        let whole : take w.replay.current_index w.replay.events ≡ saved.events =
          take_all w.replay.current_index w.replay.events far ∙ same in
        let fresh = Session.new f64 saved.target saved.config shown.clock.now shown.clock.instant in
        (
          w,
          s,
          ap
                (λ o. o >>= (λ w2. run_all f32 f64 widen commands w2) >>= λ w2.
                  seek_replay_to_end f32 f64 widen w2)
                (animates f32 f64 widen saved speed clock e es some_events)
              ∙ rw done ended,
          there,
          replayed_views config steps pending target run_config now instant saved shown.clock made
              ∙ ap (with_losses f64 pending) (
                  sym (
                    ap (views f64) shown.shown
                    ∙ ap (λ xs. views f64 (replays f64 xs fresh)) whole)),
        )
