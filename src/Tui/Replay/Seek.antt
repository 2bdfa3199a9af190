-- ===== src/Tui/Replay/Seek.antt =====
-- tui/app.rs, the replay: what every key and every tick keeps, and where a seek lands.
use ttl.Base.{
  ℕ, ◌+◌, ◌≤◌, ◌≡◌, refl, sym, ap, subst, true, not, ◌&&◌, ◌||◌, Option, none, some, List, length,
  drop, leb, ltb, ◌==◌, ==_iff, arith, Bool-cases, inl, inr, min, length-drop,
}
use ttl.Base.Float.{Float}
use ttl.Setup.Config.{Config}
use ttl.State.Session.{Session, ProbeEvent, Target, Clock}
use ttl.Tui.Replay.{
  ReplayState, Screen, apply_events, rebuilt, with_session, up_to, total_duration,
  replay_event_index_for_time, seek_replay_to, land, seek_replay_to_end, tick, replay_current_ms,
}
use ttl.Tui.Replay.Sorted.{up_to-bound}
use ttl.Tui.Replay.Shown.{IsUpTo, apply_events-IsUpTo, rebuilt-IsUpTo, guarded}

index-bound :
    (events : List ProbeEvent) (ms : ℕ) → replay_event_index_for_time events ms ≤ length events
index-bound events ms = ground (arith, up_to-bound ms events)

-- `P` says from which events on the session may show the recording.
module _ (f64 : Float) (target : Target) (config : Config) (P : ℕ → Type 0) (start : P 0) where
  -- There is a session, and it shows the events up to the one before `i`.
  abbrev pub Shows : List ProbeEvent → ℕ → Option (Session f64) → Type 0
  Shows events i none = ⊥
  Shows events i (some s) = IsUpTo f64 target config P events i s

  forward-Shows :
      (events : List ProbeEvent) (i j : ℕ) (o : Option (Session f64))
      → i ≤ j
      → j ≤ length events
      → Shows events i o
      → (o' : Option (Session f64)) × (with_session f64 (apply_events f64 i j events) o ≡ some o')
        × Shows events j o'
  forward-Shows events i j none h k w = absurd w
  forward-Shows events i j (some s) h k w =
      let (t, done, u) = apply_events-IsUpTo f64 target config P events i j s h k w in
      (some _, rw done refl, guarded f64 target config P events j s t u)

  backward-Shows :
      (events : List ProbeEvent) (clock : Clock) (i j : ℕ) (o : Option (Session f64))
      → j ≤ length events
      → Shows events i o
      → (o' : Option (Session f64)) × (with_session f64 (rebuilt f64 clock j events) o ≡ some o')
        × Shows events j o'
  backward-Shows events clock i j none k w = absurd w
  backward-Shows events clock i j (some s) k w =
      let (t, done, u) = rebuilt-IsUpTo f64 target config P events start clock i j s k w in
      (some _, rw done refl, guarded f64 target config P events j s t u)

  module _ (f32 : Float) (widen : f32.F64 → f64.F64) where
    -- The session shows the recording up to the current event, which is one of the recording.
    pub record IsShown (w : Screen f32 f64 widen) : Type 0 where
      pub bound : w.replay.current_index ≤ length w.replay.events
      pub shown : Shows w.replay.events w.replay.current_index w.session

    -- A screen that shows the recording, and the same one as before.
    pub record IsNext (events : List ProbeEvent) (w : Screen f32 f64 widen) : Type 0 where
      pub same : w.replay.events ≡ events
      pub state : IsShown w

    -- Where a seek lands.
    pub record HasLanded (ms : ℕ) (w : Screen f32 f64 widen) : Type 0 where
      pub index :
          w.replay.current_index
          ≡ replay_event_index_for_time w.replay.events (min ms (total_duration w.replay.events))
      pub paused : w.replay.paused ≡ true
      pub time : w.replay.paused_at_elapsed_ms ≡ min ms (total_duration w.replay.events)
      pub finished : w.replay.finished ≡ leb (length w.replay.events) w.replay.current_index

    pub seek_replay_to-lands :
        (clock : Clock) (ms : ℕ) (w : Screen f32 f64 widen)
        → IsShown w
        → (w' : Screen f32 f64 widen) × (seek_replay_to f32 f64 widen clock ms w ≡ some w')
          × IsNext w.replay.events w'
          × HasLanded ms w'
    unfolding seek_replay_to
    seek_replay_to-lands clock ms w v =
        let events = w.replay.events in
        let i = w.replay.current_index in
        let j = replay_event_index_for_time events (min ms (total_duration events)) in
        let k = index-bound events (min ms (total_duration events)) in
        let landed = land f32 f64 widen (min ms (total_duration events)) j w.replay in
        let moved : ReplayState f32 f64 widen = record landed { current_index = j } in
        elim (Bool-cases (j == i)) [
          | inl there ↦
              let e : j ≡ i = (==_iff j i).0 there in
              (
                record w { replay = landed },
                rw there refl,
                record { same = refl; state = record { bound = v.bound; shown = v.shown } },
                record {
                  index = sym e;
                  paused = refl;
                  time = refl;
                  finished = ap (leb (length events)) e;
                },
              )
          | inr elsewhere ↦ elim (Bool-cases (leb j i)) [
            | inl back ↦
                let (o, done, u) = backward-Shows events clock i j w.session k v.shown in
                (
                  record { replay = moved; session = o },
                  rw (elsewhere, back, done) refl,
                  record { same = refl; state = record { bound = k; shown = u } },
                  record { index = refl; paused = refl; time = refl; finished = refl },
                )
            | inr on ↦
                let later : i ≤ j = ground (arith, on) in
                let (o, done, u) = forward-Shows events i j w.session later k v.shown in
                (
                  record { replay = moved; session = o },
                  rw (elsewhere, on, done) refl,
                  record { same = refl; state = record { bound = k; shown = u } },
                  record { index = refl; paused = refl; time = refl; finished = refl },
                )
          ]
        ]

    pub seek_replay_to_end-IsNext :
        (w : Screen f32 f64 widen)
        → IsShown w
        → (w' : Screen f32 f64 widen) × (seek_replay_to_end f32 f64 widen w ≡ some w')
          × IsNext w.replay.events w'
          × (w'.replay.current_index ≡ length w.replay.events)
    unfolding seek_replay_to_end
    seek_replay_to_end-IsNext w v =
        let events = w.replay.events in
        let i = w.replay.current_index in
        let j = length events in
        let replay : ReplayState f32 f64 widen = record w.replay {
          paused = true;
          paused_at_elapsed_ms = total_duration events;
          finished = true;
          current_index = j;
        } in
        elim (Bool-cases (ltb i j)) [
          | inl before ↦
              let later : i ≤ j = v.bound in
              let (o, done, u) = forward-Shows events i j w.session later (omega arith) v.shown in
              (
                record { replay = replay; session = o },
                rw (before, done) refl,
                record { same = refl; state = record { bound = omega arith; shown = u } },
                refl,
              )
          | inr at_end ↦
              let e : i ≡ j = ground (arith, at_end, v.bound) in
              (
                record { replay = replay; session = w.session },
                rw at_end refl,
                record {
                  same = refl;
                  state = record {
                    bound = omega arith;
                    shown = subst (λ n. Shows events n w.session) e v.shown;
                  };
                },
                refl,
              )
        ]

    pub tick-IsNext :
        (instant : ℕ) (w : Screen f32 f64 widen)
        → IsShown w
        → (w' : Screen f32 f64 widen) × (tick f32 f64 widen instant w ≡ some w')
          × IsNext w.replay.events w'
    unfolding tick
    tick-IsNext instant w v =
        let r = w.replay in
        let events = r.events in
        let i = r.current_index in
        let n = up_to (replay_current_ms f32 f64 widen instant r) (drop i events) in
        let j = i + n in
        let k : j ≤ length events = omega (
          arith,
          v.bound,
          length-drop i events,
          up_to-bound (replay_current_ms f32 f64 widen instant r) (drop i events),
        ) in
        let moved : ReplayState f32 f64 widen = record r {
          current_index = j;
          finished = leb (length events) j || r.finished;
        } in
        elim (Bool-cases (not r.paused && not r.finished)) [
          | inr still ↦ (w, rw still refl, record { same = refl; state = v })
          | inl playing ↦ elim (Bool-cases (ltb i j)) [
            | inl more ↦
                let (o, done, u) = forward-Shows events i j w.session (omega arith) k v.shown in
                (
                  record { replay = moved; session = o },
                  rw (playing, more, done) refl,
                  record { same = refl; state = record { bound = k; shown = u } },
                )
            | inr none_yet ↦
                let e : i ≡ j = ground (arith, none_yet) in
                (
                  record { replay = moved; session = w.session },
                  rw (playing, none_yet) refl,
                  record {
                    same = refl;
                    state = record {
                      bound = k;
                      shown = subst (λ m. Shows events m w.session) e v.shown;
                    };
                  },
                )
          ]
        ]
