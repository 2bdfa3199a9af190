-- ===== src/Tui/Replay/Reset.antt =====
-- tui/app.rs, the key r in a replay: the session is emptied, and shows the events from there on.
use ttl.Base.{
  ℕ, ◌-◌, ◌≡◌, refl, sym, ap, ◌∙◌, subst, some, List, [], ◌∷◌, take, drop, Option, none, arith,
  Bool,
}
use ttl.Base.Net.{IpAddr}
use ttl.Base.Float.{Float}
use ttl.Setup.Config.{Config}
use ttl.State.Session
use ttl.State.Session.{Session, ProbeEvent, Target, Clock, apply_replay_event, reset_stats}
use ttl.State.Session.Invariant.{IsWellFormed, new-IsWellFormed, apply_replay_event-IsWellFormed}
use ttl.State.Session.Reset.{reset_stats-eq-new}
use ttl.Trace.Receiver.Live.{replays}
use ttl.Tui.Replay.{Screen, with_session, reset_shown}
use ttl.Tui.Replay.Shown.{IsUpTo, marked, guarded, frame-IsUpTo}
use ttl.Tui.Replay.Seek.{Shows, IsShown, IsNext}

module _ (f64 : Float) where
  replays-IsWellFormed :
      (es : List ProbeEvent) (s : Session f64)
      → IsWellFormed f64 s
      → IsWellFormed f64 (replays f64 es s)
  unfolding replays
  replays-IsWellFormed [] s w = w
  replays-IsWellFormed (e ∷ es) s w =
      replays-IsWellFormed es (apply_replay_event f64 e s)
        (apply_replay_event-IsWellFormed f64 e s w)

  marked-IsWellFormed :
      (g : ℕ) (s : Session f64) → IsWellFormed f64 s → IsWellFormed f64 (marked f64 g s)
  marked-IsWellFormed g s w = record {
    indexed = w.indexed;
    full = w.full;
    searching = w.searching;
    reached = w.reached;
    near = w.near;
  }

  module _ (target : Target) (config : Config) (P : ℕ → Type 0) (start : P 0) where
    IsUpTo-IsWellFormed :
        (events : List ProbeEvent) (i : ℕ) (s : Session f64)
        → IsUpTo f64 target config P events i s
        → IsWellFormed f64 s
    IsUpTo-IsWellFormed events i s w =
        let s0 = Session.new f64 target config w.clock.now w.clock.instant in
        subst (IsWellFormed f64) (sym w.shown) (
          marked-IsWellFormed s.render_generation _ (
            replays-IsWellFormed (take (i - w.from) (drop w.from events)) s0
              (new-IsWellFormed f64 target config w.clock.now w.clock.instant)))

    reset_stats-IsUpTo :
        (events : List ProbeEvent) (clock : Clock) (i : ℕ) (s : Session f64)
        → P i
        → IsUpTo f64 target config P events i s
        → IsUpTo f64 target config P events i (reset_stats f64 clock.now clock.instant s)
    unfolding Session.new
    reset_stats-IsUpTo events clock i s here w =
        let remade : Target × Config × Bool × Option IpAddr × Option IpAddr → Session f64 = λ x.
          record (Session.new f64 x.0 x.1 clock.now clock.instant) {
            paused = x.2;
            source_ip = x.3;
            gateway = x.4;
            render_generation = s.render_generation;
          } in
        let none_left : i - i ≡ 0 = omega arith in
        let fresh = Session.new f64 target config clock.now clock.instant in
        let emptied : replays f64 (take (i - i) (drop i events)) fresh ≡ fresh =
          ap (λ n. replays f64 (take n (drop i events)) fresh) none_left ∙ unfold replays in refl in
        let shown =
          reset_stats-eq-new f64 clock.now clock.instant s (IsUpTo-IsWellFormed events i s w)
          ∙ ap remade (frame-IsUpTo f64 target config P events i s w)
          ∙ ap (marked f64 s.render_generation) (sym emptied) in
        record {
          clock = clock;
          from = i;
          allowed = here;
          before = omega arith;
          shown =
              shown
              ∙ ap (λ g. marked f64 g (replays f64 (take (i - i) (drop i events)) fresh))
                  (ap (λ (u : Session f64). u.render_generation) (sym shown));
        }

    reset-Shows :
        (events : List ProbeEvent) (clock : Clock) (i : ℕ) (o : Option (Session f64))
        → P i
        → Shows f64 target config P start events i o
        → (o' : Option (Session f64)) × (with_session f64
              (λ s. some (reset_stats f64 clock.now clock.instant s))
              o
            ≡ some o')
          × Shows f64 target config P start events i o'
    reset-Shows events clock i none here w = absurd w
    reset-Shows events clock i (some s) here w =
        let u = reset_stats-IsUpTo events clock i s here w in
        (
          some _,
          refl,
          guarded f64 target config P events i s (reset_stats f64 clock.now clock.instant s) u,
        )

    module _ (f32 : Float) (widen : f32.F64 → f64.F64) where
      pub reset_shown-IsNext :
          (clock : Clock) (w : Screen f32 f64 widen)
          → P w.replay.current_index
          → IsShown f64 target config P start f32 widen w
          → (w' : Screen f32 f64 widen) × (reset_shown f32 f64 widen clock w ≡ some w')
            × IsNext f64 target config P start f32 widen w.replay.events w'
      reset_shown-IsNext clock w here v =
          let (o, done, u) =
            reset-Shows w.replay.events clock w.replay.current_index w.session here v.shown in
          (
            record w { session = o },
            rw done refl,
            record { same = refl; state = record { bound = v.bound; shown = u } },
          )
