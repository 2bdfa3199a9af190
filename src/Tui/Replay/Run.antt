-- ===== src/Tui/Replay/Run.antt =====
-- tui/app.rs, the replay of a saved session: after any keys and ticks.
use ttl.Base.{
  ℕ, ◌-◌, ◌≤◌, ◌<◌, ◌≡◌, ◌∙◌, refl, ap, subst, true, false, Option, none, some, List, ◌∷◌, length,
  take, drop, keep, leb, ◌==◌, ◌>>=◌, arith, min,
}
use ttl.Base.Float.{Float}
use ttl.Setup.Config.{Config}
use ttl.State.Session
use ttl.State.Session.{Session, ProbeEvent, Target, Clock}
use ttl.Trace.Receiver.Live.{replays}
use ttl.Tui.Replay.{
  Screen, Command, run_all, animate, if_any, opened, total_duration, replay_event_index_for_time,
  sort_by_offset, seek_replay_to,
}
use ttl.Tui.Replay.Sorted.{IsSorted, sort_by_offset-IsSorted, length-sort_by_offset, take-up_to}
use ttl.Tui.Replay.Shown.{marked}
use ttl.Tui.Replay.Seek.{Shows, seek_replay_to-lands}
use ttl.Tui.Replay.Keys.{all_allowed, AllKept, AllKept-AllAllow}
use ttl.Tui.Replay.Ends.{total-AllUpTo, keep-min}
use ttl.Tui.Replay.Steps.{opened-IsNext, run_all-IsNext}

module _ (f32 f64 : Float) (widen : f32.F64 → f64.F64) where
  -- The session is the replay of these events on a new one, but for the count of write guards.
  pub record IsReplayOf (target : Target) (config : Config) (events : List ProbeEvent)
      (s : Session f64) : Type 0 where
    pub clock : Clock
    pub shown :
        s
        ≡ marked f64 s.render_generation
            (replays f64 events (Session.new f64 target config clock.now clock.instant))

  pub animates :
      (saved : Session f64) (speed : f32.F64) (clock : Clock) (e : ProbeEvent)
      (es : List ProbeEvent)
      → saved.events ≡ e ∷ es
      → animate f32 f64 widen saved speed clock ≡ some (opened f32 f64 widen saved speed clock)
  unfolding animate
  animates saved speed clock e es some_events =
      ap (λ xs. if_any f32 f64 widen xs (opened f32 f64 widen saved speed clock)) some_events

  pub showing :
      (target : Target) (config : Config) (P : ℕ → Type 0) (start : P 0) (events : List ProbeEvent)
      (i : ℕ) (o : Option (Session f64))
      → Shows f64 target config P start events i o
      → (s : Session f64) × (from : ℕ) × (o ≡ some s)
        × P from
        × (from ≤ i)
        × IsReplayOf target config (take (i - from) (drop from events)) s
  showing target config P start events i none w = absurd w
  showing target config P start events i (some s) w =
      (s, w.from, refl, w.allowed, w.before, record { clock = w.clock; shown = w.shown })

  -- Without the key r the events from the first one on.
  pub showing_all :
      (target : Target) (config : Config) (events : List ProbeEvent) (i : ℕ)
      (o : Option (Session f64))
      → Shows f64 target config (λ k. k ≡ 0) refl events i o
      → (s : Session f64) × (o ≡ some s) × IsReplayOf target config (take i events) s
  showing_all target config events i o w =
      let (s, from, there, zero_from, before, shown) =
        showing target config (λ k. k ≡ 0) refl events i o w in
      let all : take (i - from) (drop from events) ≡ take i events =
        ap (λ k. take (i - k) (drop k events)) zero_from ∙ ap (λ n. take n events) (omega arith) in
      (s, there, subst (λ xs. IsReplayOf target config xs s) all shown)

  -- A saved session that has events, replayed: whatever keys but r and whatever ticks come, at
  -- whatever times, the replay goes on, with no slice out of bounds, and shows the session that the
  -- events before the current one make of a new session of the same target and configuration, in the
  -- order of their offsets. This is with the count of write guards left out.
  pub run_all-animate :
      (saved : Session f64) (speed : f32.F64) (clock : Clock)
      (commands : List (Clock × Command f32 f64 widen)) (e : ProbeEvent) (es : List ProbeEvent)
      → saved.events ≡ e ∷ es
      → AllKept f32 f64 widen commands
      → (w : Screen f32 f64 widen) × (s : Session f64) × ((animate f32 f64 widen saved speed clock
            >>= λ w0. run_all f32 f64 widen commands w0)
          ≡ some w)
        × (w.session ≡ some s)
        × (w.replay.current_index ≤ length saved.events)
        × IsReplayOf saved.target saved.config
            (take w.replay.current_index (sort_by_offset saved.events))
            s
  run_all-animate saved speed clock commands e es some_events kept =
      let target = saved.target in
      let config = saved.config in
      let begun = opened-IsNext f32 f64 widen (λ k. k ≡ 0) refl saved speed clock in
      let w0 = opened f32 f64 widen saved speed clock in
      let (w, done, next) =
        run_all-IsNext f32 f64 widen target config (λ k. k ≡ 0) refl commands w0
          (AllKept-AllAllow f32 f64 widen (λ k. k ≡ 0) commands kept) begun.state in
      let same : w.replay.events ≡ sort_by_offset saved.events = next.same ∙ begun.same in
      let (s, there, shown) =
        showing_all target config w.replay.events w.replay.current_index w.session
          next.state.shown in
      (
        w,
        s,
        ap (λ o. o >>= λ w1. run_all f32 f64 widen commands w1)
              (animates saved speed clock e es some_events)
            ∙ done,
        there,
        omega (arith, next.state.bound, ap length same, length-sort_by_offset saved.events),
        subst (λ xs. IsReplayOf target config (take w.replay.current_index xs) s) same shown,
      )

  -- A saved session that has events, replayed: whatever keys and ticks come, the key r with them, the
  -- replay goes on, with no slice out of bounds, and shows the session that events in a row, from some
  -- one on up to the one before the current one, make of a new session of the same target and
  -- configuration. This is with the count of write guards left out.
  pub run_all-resets :
      (saved : Session f64) (speed : f32.F64) (clock : Clock)
      (commands : List (Clock × Command f32 f64 widen)) (e : ProbeEvent) (es : List ProbeEvent)
      → saved.events ≡ e ∷ es
      → (w : Screen f32 f64 widen) × (s : Session f64) × (from : ℕ) × ((animate f32 f64 widen saved
              speed clock
            >>= λ w0. run_all f32 f64 widen commands w0)
          ≡ some w)
        × (w.session ≡ some s)
        × (w.replay.current_index ≤ length saved.events)
        × (from ≤ w.replay.current_index)
        × IsReplayOf saved.target saved.config
            (take (w.replay.current_index - from) (drop from (sort_by_offset saved.events)))
            s
  run_all-resets saved speed clock commands e es some_events =
      let target = saved.target in
      let config = saved.config in
      let begun = opened-IsNext f32 f64 widen (λ _. Unit) tt saved speed clock in
      let w0 = opened f32 f64 widen saved speed clock in
      let (w, done, next) =
        run_all-IsNext f32 f64 widen target config (λ _. Unit) tt commands w0
          (all_allowed f32 f64 widen commands) begun.state in
      let same : w.replay.events ≡ sort_by_offset saved.events = next.same ∙ begun.same in
      let i = w.replay.current_index in
      let (s, from, there, allowed, before, shown) =
        showing target config (λ _. Unit) tt w.replay.events i w.session next.state.shown in
      (
        w,
        s,
        from,
        ap (λ o. o >>= λ w1. run_all f32 f64 widen commands w1)
              (animates saved speed clock e es some_events)
            ∙ done,
        there,
        omega (arith, next.state.bound, ap length same, length-sort_by_offset saved.events),
        before,
        subst (λ xs. IsReplayOf target config (take (i - from) (drop from xs)) s) same shown,
      )

  -- The index of a seek of sorted events: those up to the time.
  landing :
      (ms : ℕ) (events : List ProbeEvent)
      → IsSorted events
      → 0 < ms
      → 0 < total_duration events
      → take (replay_event_index_for_time events (min ms (total_duration events))) events
        ≡ keep (λ f. leb f.offset_ms ms) events
  landing ms events w h k =
      let total = total_duration events in
      let some_time : (min ms total == 0) ≡ false = ground arith in
      rw some_time
        (take-up_to (min ms total) events w ∙ keep-min ms total events (total-AllUpTo events w))

  -- A saved session that has an event after its start, replayed: whatever keys but r and whatever ticks
  -- come, a seek to a time after the start then shows the session that the events up to that time, and
  -- no others, make of a new session of the same target and configuration, and pauses there. This is
  -- with the count of write guards left out.
  pub seek_replay_to-animate :
      (saved : Session f64) (speed : f32.F64) (clock later : Clock)
      (commands : List (Clock × Command f32 f64 widen)) (e : ProbeEvent) (es : List ProbeEvent)
      (ms : ℕ)
      → saved.events ≡ e ∷ es
      → AllKept f32 f64 widen commands
      → 0 < ms
      → 0 < total_duration (sort_by_offset saved.events)
      → (w : Screen f32 f64 widen) × (s : Session f64) × ((animate f32 f64 widen saved speed clock
            >>= (λ w0. run_all f32 f64 widen commands w0)
            >>= λ w1. seek_replay_to f32 f64 widen later ms w1)
          ≡ some w)
        × (w.session ≡ some s)
        × (w.replay.paused ≡ true)
        × IsReplayOf saved.target saved.config
            (keep (λ f. leb f.offset_ms ms) (sort_by_offset saved.events))
            s
  seek_replay_to-animate saved speed clock later commands e es ms some_events no_reset h k =
      let target = saved.target in
      let config = saved.config in
      let begun = opened-IsNext f32 f64 widen (λ i. i ≡ 0) refl saved speed clock in
      let w0 = opened f32 f64 widen saved speed clock in
      let (w1, done, next) =
        run_all-IsNext f32 f64 widen target config (λ i. i ≡ 0) refl commands w0
          (AllKept-AllAllow f32 f64 widen (λ i. i ≡ 0) commands no_reset) begun.state in
      let (w, sought, last, landed) =
        seek_replay_to-lands f64 target config (λ i. i ≡ 0) refl f32 widen later ms w1 next.state in
      let same : w.replay.events ≡ sort_by_offset saved.events =
        last.same ∙ next.same ∙ begun.same in
      let (s, there, shown) =
        showing_all target config w.replay.events w.replay.current_index w.session
          last.state.shown in
      let kept =
        ap (λ i. take i w.replay.events) landed.index
        ∙ ap (λ xs. take (replay_event_index_for_time xs (min ms (total_duration xs))) xs) same
        ∙ landing ms (sort_by_offset saved.events) (sort_by_offset-IsSorted saved.events) h k in
      (
        w,
        s,
        ap
              (λ o. o >>= (λ w2. run_all f32 f64 widen commands w2) >>= λ w2.
                seek_replay_to f32 f64 widen later ms w2)
              (animates saved speed clock e es some_events)
            ∙ rw done sought,
        there,
        landed.paused,
        subst (λ xs. IsReplayOf target config xs s) kept shown,
      )
