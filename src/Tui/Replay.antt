-- ===== src/Tui/Replay.antt =====
-- tui/app.rs, the replay of a recorded session: `ReplayState`, and what the keys and the ticks of the
-- loop do to it and to the session that is shown. An `Instant` is a count of nanoseconds. A slice out
-- of bounds is the `none` of the functions that return an Option. The session is absent when the map
-- of sessions has none for the target. Status messages are left out.
mod Sorted
mod Ends
mod Shown
mod Seek
mod Reset
mod Keys
mod Steps
mod Run
mod Recorded
mod Tests
use ttl.Base.{
  ℕ, zero, suc, ◌+◌, ◌-◌, ◌*◌, ◌/◌, ◌%◌, ◌^◌, min, Bool, true, false, not, ◌&&◌, ◌||◌, Option, none,
  some, List, [], ◌∷◌, length, take, drop, leb, ltb, ◌==◌, ◌>>=◌, if◌then◌else◌,
}
use ttl.Base.Float.{Float}
use ttl.State.Session
use ttl.State.Session.{Session, ProbeEvent, Clock, under_write_guard, reset_stats}
use ttl.Trace.Receiver.Live.{replays}

-- `events.sort_by_key(|e| e.offset_ms)`, which keeps the order of events of one offset.
abbrev pub insert_event : ProbeEvent → List ProbeEvent → List ProbeEvent
insert_event e [] = e ∷ []
insert_event e (f ∷ fs) =
    let rest = insert_event e fs in if leb e.offset_ms f.offset_ms then e ∷ f ∷ fs else f ∷ rest

pub sort_by_offset : List ProbeEvent → List ProbeEvent
sort_by_offset [] = []
sort_by_offset (e ∷ es) = insert_event e (sort_by_offset es)

-- `events.last().map_or(0, |e| e.offset_ms)`.
pub total_duration : List ProbeEvent → ℕ
total_duration [] = 0
total_duration (e ∷ []) = e.offset_ms
total_duration (e ∷ f ∷ es) = total_duration (f ∷ es)

-- How many events from the first one on are not after a time: `partition_point` on the events, which
-- are in the order of their offsets, and the search of the tick.
pub up_to : ℕ → List ProbeEvent → ℕ
up_to ms [] = 0
up_to ms (e ∷ es) = let n = up_to ms es in if leb e.offset_ms ms then suc n else 0

abbrev pub replay_event_index_for_time : List ProbeEvent → ℕ → ℕ
replay_event_index_for_time events target_ms = if target_ms == 0 then 0 else up_to target_ms events

-- `&xs[from..to]`.
abbrev pub slice {ℓ} : {A : Type ℓ} → ℕ → ℕ → List A → Option (List A)
slice from to xs =
    if leb from to && leb to (length xs) then some (take (to - from) (drop from xs)) else none

-- An i64 by its sign and its magnitude.
pub data Delta : Type 0 where
  forward backward : ℕ → Delta

abbrev pub replay_target_ms_from_delta : ℕ → Delta → ℕ
replay_target_ms_from_delta current_ms (forward n) = min (current_ms + n) (2 ^ 64 - 1)
replay_target_ms_from_delta current_ms (backward n) = current_ms - n

module _ (f64 : Float) where
  -- What is done with the session under a write guard, if the map has it.
  abbrev pub with_session :
      (Session f64 → Option (Session f64)) → Option (Session f64) → Option (Option (Session f64))
  with_session f none = some none
  with_session f (some s) = f s >>= λ t. some (some (under_write_guard f64 (λ _. t) s))

  -- `for event in &replay.events[from..to] { session.apply_replay_event(event) }`.
  abbrev pub apply_events : ℕ → ℕ → List ProbeEvent → Session f64 → Option (Session f64)
  apply_events from to events s = slice from to events >>= λ es. some (replays f64 es s)

  -- The session from scratch.
  abbrev pub rebuilt : Clock → ℕ → List ProbeEvent → Session f64 → Option (Session f64)
  rebuilt clock to events s =
      apply_events 0 to events (Session.new f64 s.target s.config clock.now clock.instant)

-- `f32` is the type of the speed, and `widen` is the cast `as f64`.
module _ (f32 f64 : Float) (widen : f32.F64 → f64.F64) where
  open f64 use {F64, of_nat, literal, fadd, fmul, fdiv, flt, to_u64}

  pub record ReplayState : Type 0 where
    pub events : List ProbeEvent
    pub current_index : ℕ
    pub replay_started_at : ℕ
    pub speed_multiplier : f32.F64
    pub paused : Bool
    pub finished : Bool
    pub paused_at_elapsed_ms : ℕ

  unfoldable pub new : List ProbeEvent → f32.F64 → ℕ → ReplayState
  unfolding sort_by_offset
  new events speed instant = record {
    events = sort_by_offset events;
    current_index = 0;
    replay_started_at = instant;
    speed_multiplier = f32.fmax speed (f32.literal 1 10);
    paused = false;
    finished = false;
    paused_at_elapsed_ms = 0;
  }

  -- `x.clamp(0.0, u64::MAX as f64) as u64`.
  abbrev pub clamp_u64 : F64 → ℕ
  clamp_u64 x =
      let top = of_nat (2 ^ 64 - 1) in
      to_u64 (if flt x (of_nat 0) then of_nat 0 else if flt top x then top else x)

  -- `Duration::as_secs_f64`, of nanoseconds.
  abbrev pub as_secs : ℕ → F64
  as_secs nanos =
      fadd (of_nat (nanos / 1000000000)) (fdiv (of_nat (nanos % 1000000000)) (of_nat 1000000000))

  pub replay_current_ms : ℕ → ReplayState → ℕ
  unfolding total_duration
  replay_current_ms instant r =
      let elapsed_ms = fmul (as_secs (instant - r.replay_started_at)) (literal 1000 1) in
      if r.paused
      then r.paused_at_elapsed_ms
      else if r.finished
      then total_duration r.events
      else clamp_u64 (fmul elapsed_ms (widen r.speed_multiplier))

  -- In nanoseconds.
  abbrev pub replay_wall_offset : ℕ → f32.F64 → ℕ
  replay_wall_offset replay_ms speed =
      clamp_u64 (fdiv (of_nat replay_ms) (widen (f32.fmax speed (f32.literal 1 10)))) * 1000000

  pub rebase_replay_start : ℕ → ℕ → ReplayState → ReplayState
  rebase_replay_start instant replay_ms r =
      let offset = replay_wall_offset replay_ms r.speed_multiplier in
      record r { replay_started_at = if leb offset instant then instant - offset else instant }

  pub toggle_replay_pause : ℕ → ReplayState → ReplayState
  unfolding replay_current_ms rebase_replay_start
  toggle_replay_pause instant r =
      if r.paused
      then record (rebase_replay_start instant r.paused_at_elapsed_ms r) { paused = false }
      else record r { paused_at_elapsed_ms = replay_current_ms instant r; paused = true }

  abbrev pub change_speed : f32.F64 → ReplayState → ReplayState
  change_speed delta r =
      let sum = f32.fadd r.speed_multiplier delta in
      let low = f32.literal 1 10 in
      let high = f32.literal 1000 1 in
      record r {
        speed_multiplier = if f32.flt sum low then low else if f32.flt high sum then high else sum;
      }

  pub adjust_replay_speed : ℕ → f32.F64 → ReplayState → ReplayState
  unfolding replay_current_ms rebase_replay_start
  adjust_replay_speed instant delta r =
      let current_ms = replay_current_ms instant r in
      let changed = change_speed delta r in
      if r.paused then changed else rebase_replay_start instant current_ms changed

  pub record Screen : Type 0 where
    pub replay : ReplayState
    pub session : Option (Session f64)

  abbrev pub land : ℕ → ℕ → ReplayState → ReplayState
  land target_ms target_index r = record r {
    paused = true;
    paused_at_elapsed_ms = target_ms;
    finished = leb (length r.events) target_index;
  }

  pub seek_replay_to : Clock → ℕ → Screen → Option Screen
  unfolding total_duration up_to
  seek_replay_to clock ms w =
      let r = w.replay in
      let target_ms = min ms (total_duration r.events) in
      let target_index = replay_event_index_for_time r.events target_ms in
      let landed = land target_ms target_index r in
      if target_index == r.current_index
      then some (record w { replay = landed })
      else (if leb target_index r.current_index
          then with_session f64 (rebuilt f64 clock target_index r.events) w.session
          else with_session f64 (apply_events f64 r.current_index target_index r.events) w.session)
        >>= λ session.
            some (record {
              replay = record landed { current_index = target_index };
              session = session;
            })

  pub seek_replay_to_end : Screen → Option Screen
  unfolding total_duration
  seek_replay_to_end w =
      let r = w.replay in
      let target_index = length r.events in
      let replay = record r {
        paused = true;
        paused_at_elapsed_ms = total_duration r.events;
        finished = true;
        current_index = target_index;
      } in
      (if ltb r.current_index target_index
        then with_session f64 (apply_events f64 r.current_index target_index r.events) w.session
        else some w.session)
      >>= λ session. some (record { replay = replay; session = session })

  pub seek_replay : Clock → Delta → Screen → Option Screen
  unfolding seek_replay_to replay_current_ms
  seek_replay clock delta w =
      let current_ms = replay_current_ms clock.instant w.replay in
      seek_replay_to clock (replay_target_ms_from_delta current_ms delta) w

  -- The tick of the loop of `run_app`.
  pub tick : ℕ → Screen → Option Screen
  unfolding replay_current_ms up_to
  tick instant w =
      let r = w.replay in
      let elapsed = replay_current_ms instant r in
      let start = r.current_index in
      let end = start + up_to elapsed (drop start r.events) in
      let session =
        if ltb start end
        then with_session f64 (apply_events f64 start end r.events) w.session
        else some w.session in
      let moved = record r {
        current_index = end;
        finished = leb (length r.events) end || r.finished;
      } in
      if not r.paused && not r.finished
      then session >>= (λ t. some (record { replay = moved; session = t }))
      else some w

  -- A saved session is replayed from a new one.
  pub opened : Session f64 → f32.F64 → Clock → Screen
  unfolding new
  opened saved speed clock = record {
    replay = new saved.events speed clock.instant;
    session = some (Session.new f64 saved.target saved.config clock.now clock.instant);
  }

  abbrev pub if_any : List ProbeEvent → Screen → Option Screen
  if_any [] w = none
  if_any (e ∷ es) w = some w

  -- `run_replay_mode` of main.rs, with `--animate`: without events the saved session itself is shown.
  pub animate : Session f64 → f32.F64 → Clock → Option Screen
  unfolding opened
  animate saved speed clock = if_any saved.events (opened saved speed clock)

  -- The key r: the statistics of the session that is shown are reset.
  abbrev pub reset_shown : Clock → Screen → Option Screen
  reset_shown clock w =
      with_session f64 (λ s. some (reset_stats f64 clock.now clock.instant s)) w.session >>= λ t.
      some (record w { session = t })

  -- What a key or a tick does to the replay and to the session that is shown.
  pub data Command : Type 0 where
    ticks toggles to_end resets : Command
    seeks_to : ℕ → Command
    seeks_by : Delta → Command
    speeds_by : f32.F64 → Command

  pub run_command : Clock → Command → Screen → Option Screen
  unfolding tick toggle_replay_pause seek_replay_to_end seek_replay_to seek_replay
      adjust_replay_speed
  run_command clock ticks w = tick clock.instant w
  run_command clock toggles w =
      some (record w { replay = toggle_replay_pause clock.instant w.replay })
  run_command clock to_end w = seek_replay_to_end w
  run_command clock resets w = reset_shown clock w
  run_command clock (seeks_to ms) w = seek_replay_to clock ms w
  run_command clock (seeks_by delta) w = seek_replay clock delta w
  run_command clock (speeds_by delta) w =
      some (record w { replay = adjust_replay_speed clock.instant delta w.replay })

  pub run_all : List (Clock × Command) → Screen → Option Screen
  unfolding run_command
  run_all [] w = some w
  run_all ((clock, command) ∷ rest) w = run_command clock command w >>= λ w'. run_all rest w'
