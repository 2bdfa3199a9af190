-- ===== src/Tui/Replay/Steps.antt =====
-- tui/app.rs, the replay: what any keys and ticks keep.
use ttl.Base.{
  ℕ, ◌≡◌, ◌∙◌, refl, sym, ap, subst, some, List, [], ◌∷◌, length, arith, Bool-cases, inl, inr,
}
use ttl.Base.Float.{Float}
use ttl.Setup.Config.{Config}
use ttl.State.Session.{Session, Target, Clock}
use ttl.Tui.Replay.{
  ReplayState, Screen, Command, ticks, toggles, to_end, resets, seeks_to, seeks_by, speeds_by,
  run_command, run_all, opened, sort_by_offset, seek_replay, toggle_replay_pause,
  adjust_replay_speed, rebase_replay_start, replay_current_ms, replay_target_ms_from_delta,
}
use ttl.Tui.Replay.Shown.{begun-IsUpTo}
use ttl.Tui.Replay.Seek.{
  Shows, IsShown, IsNext, seek_replay_to-lands, seek_replay_to_end-IsNext, tick-IsNext,
}
use ttl.Tui.Replay.Reset.{reset_shown-IsNext}
use ttl.Tui.Replay.Keys.{Allows, AllAllow}

module _ (f32 f64 : Float) (widen : f32.F64 → f64.F64) where
  pub opened-IsNext :
      (P : ℕ → Type 0) (start : P 0) (saved : Session f64) (speed : f32.F64) (clock : Clock)
      → IsNext f64 saved.target saved.config P start f32 widen
          (sort_by_offset saved.events)
          (opened f32 f64 widen saved speed clock)
  unfolding opened
  opened-IsNext P start saved speed clock = record {
    same = refl;
    state = record {
      bound = omega arith;
      shown =
          begun-IsUpTo f64 saved.target saved.config P (sort_by_offset saved.events) start clock;
    };
  }

  events-toggle :
      (instant : ℕ) (r : ReplayState f32 f64 widen)
      → ((toggle_replay_pause f32 f64 widen instant r).events ≡ r.events)
        × ((toggle_replay_pause f32 f64 widen instant r).current_index ≡ r.current_index)
  unfolding toggle_replay_pause rebase_replay_start
  events-toggle instant r = elim (Bool-cases r.paused) [
    | inl paused ↦ rw paused (refl, refl)
    | inr playing ↦ rw playing (refl, refl)
  ]

  events-adjust :
      (instant : ℕ) (delta : f32.F64) (r : ReplayState f32 f64 widen)
      → ((adjust_replay_speed f32 f64 widen instant delta r).events ≡ r.events)
        × ((adjust_replay_speed f32 f64 widen instant delta r).current_index ≡ r.current_index)
  unfolding adjust_replay_speed rebase_replay_start
  events-adjust instant delta r = elim (Bool-cases r.paused) [
    | inl paused ↦ rw paused (refl, refl)
    | inr playing ↦ rw playing (refl, refl)
  ]

  module _ (target : Target) (config : Config) (P : ℕ → Type 0) (start : P 0) where
    -- What changes neither the events nor the current one keeps what is shown.
    same-IsNext :
        (w : Screen f32 f64 widen) (r : ReplayState f32 f64 widen)
        → IsShown f64 target config P start f32 widen w
        → (r.events ≡ w.replay.events) × (r.current_index ≡ w.replay.current_index)
        → IsNext f64 target config P start f32 widen w.replay.events (record w { replay = r })
    same-IsNext w r v e = record {
      same = e.0;
      state = record {
        bound = omega (arith, v.bound, e.1, ap length e.0);
        shown =
            subst (λ i. Shows f64 target config P start r.events i w.session) (sym e.1)
              (subst (λ es. Shows f64 target config P start es w.replay.current_index w.session)
                (sym e.0) v.shown);
      };
    }

    run_command-IsNext :
        (clock : Clock) (command : Command f32 f64 widen) (w : Screen f32 f64 widen)
        → Allows f32 f64 widen P command
        → IsShown f64 target config P start f32 widen w
        → (w' : Screen f32 f64 widen) × (run_command f32 f64 widen clock command w ≡ some w')
          × IsNext f64 target config P start f32 widen w.replay.events w'
    unfolding run_command seek_replay
    run_command-IsNext clock ticks w a v =
        tick-IsNext f64 target config P start f32 widen clock.instant w v
    run_command-IsNext clock resets w a v =
        reset_shown-IsNext f64 target config P start f32 widen clock w (a w.replay.current_index) v
    run_command-IsNext clock toggles w a v = (
      _,
      refl,
      same-IsNext w (toggle_replay_pause f32 f64 widen clock.instant w.replay) v
          (events-toggle clock.instant w.replay),
    )
    run_command-IsNext clock to_end w a v =
        let (w', done, next, at_end) =
          seek_replay_to_end-IsNext f64 target config P start f32 widen w v in
        (w', done, next)
    run_command-IsNext clock (seeks_to ms) w a v =
        let (w', done, next, landed) =
          seek_replay_to-lands f64 target config P start f32 widen clock ms w v in
        (w', done, next)
    run_command-IsNext clock (seeks_by delta) w a v =
        let ms =
          replay_target_ms_from_delta (replay_current_ms f32 f64 widen clock.instant w.replay)
            delta in
        let (w', done, next, landed) =
          seek_replay_to-lands f64 target config P start f32 widen clock ms w v in
        (w', done, next)
    run_command-IsNext clock (speeds_by delta) w a v = (
      _,
      refl,
      same-IsNext w (adjust_replay_speed f32 f64 widen clock.instant delta w.replay) v
          (events-adjust clock.instant delta w.replay),
    )

    pub run_all-IsNext :
        (commands : List (Clock × Command f32 f64 widen)) (w : Screen f32 f64 widen)
        → AllAllow f32 f64 widen P commands
        → IsShown f64 target config P start f32 widen w
        → (w' : Screen f32 f64 widen) × (run_all f32 f64 widen commands w ≡ some w')
          × IsNext f64 target config P start f32 widen w.replay.events w'
    unfolding run_all
    run_all-IsNext [] w a v = (w, refl, record { same = refl; state = v })
    run_all-IsNext ((clock, command) ∷ rest) w a v =
        let (w1, done, next) = run_command-IsNext clock command w a.0 v in
        let (w2, rest_done, last) = run_all-IsNext rest w1 a.1 next.state in
        (w2, rw done rest_done, record { same = last.same ∙ next.same; state = last.state })
