-- ===== src/Tui/Replay/Tests.antt =====
-- The theorems on the replay, applied to small recordings.
use ttl.Base.{
  ℕ, ◌-◌, ◌<◌, ◌≤◌, ◌≡◌, refl, sym, subst, true, some, List, length, take, drop, keep, leb, [], ◌∷◌,
  ◌>>=◌, arith,
}
use ttl.Base.Net.{v4}
use ttl.Base.Float.{thousandths}
use ttl.State.Session
use ttl.State.Session.{
  Session, ProbeEvent, Clock, reply, timed_out, record_event, reach, with_hop, hops_from, offset_ms,
}
use ttl.State.Session.Sample.{two_hops, host, begun}
use ttl.State.Session.Replay.{views}
use ttl.Trace.Receiver.Live.{live, live_step}
use ttl.Trace.Receiver.Replayed.{flush, with_losses}
use ttl.Trace.Receiver.Apply.{
  apply_response, answer_trace, answer_hop, check_destination, record_pending_timeout,
  timeout_trace,
}
use ttl.Trace.Sample.{one_flow, two_steps, still_waiting}
use ttl.Tui.Replay.{
  Screen, Command, ticks, toggles, to_end, resets, seeks_by, speeds_by, backward, animate, run_all,
  seek_replay_to, seek_replay_to_end, sort_by_offset, total_duration,
}
use ttl.Tui.Replay.Sorted.{at_offset, at_offset-sort_by_offset, IsSorted}
use ttl.Tui.Replay.Keys.{AllKept}
use ttl.Tui.Replay.Run.{IsReplayOf, run_all-animate, run_all-resets, seek_replay_to-animate}
use ttl.Tui.Replay.Recorded.{animate-live}

abbrev S : Type 0
S = Screen thousandths thousandths (λ x. x)

abbrev late : ProbeEvent
late = record { offset_ms = 300; ttl = 2; seq = 2; flow_id = 0; outcome = reply (v4 8) 20 }

abbrev early : ProbeEvent
early = record { offset_ms = 100; ttl = 1; seq = 1; flow_id = 0; outcome = timed_out }

-- A recording whose first event is not the earliest.
abbrev saved : Session thousandths
saved = record begun { events = late ∷ early ∷ [] }

abbrev clock : Clock
clock = record { instant = 1000000000; now = 5 }

abbrev commands : List (Clock × Command thousandths thousandths (λ x. x))
commands =
    (clock, ticks)
    ∷ (record clock { instant = 1200000000 }, ticks)
    ∷ (clock, to_end)
    ∷ (clock, toggles)
    ∷ (clock, speeds_by 500)
    ∷ (clock, seeks_by (backward 150))
    ∷ []

commands-AllKept : AllKept thousandths thousandths (λ x. x) commands
commands-AllKept = (tt, (tt, (tt, (tt, (tt, (tt, tt))))))

run_all-animate_example :
    (w : S) × (s : Session thousandths) × ((animate thousandths thousandths
          (λ x. x)
          saved
          1000
          clock
        >>= λ w0. run_all thousandths thousandths (λ x. x) commands w0)
      ≡ some w)
    × (w.session ≡ some s)
    × (w.replay.current_index ≤ length saved.events)
    × IsReplayOf thousandths thousandths
        (λ x. x)
        saved.target
        saved.config
        (take w.replay.current_index (sort_by_offset saved.events))
        s
run_all-animate_example =
    run_all-animate thousandths thousandths (λ x. x) saved 1000 clock commands late (early ∷ [])
      refl commands-AllKept

-- The session is reset once a first event is shown, and the replay goes on to its end.
abbrev with_reset : List (Clock × Command thousandths thousandths (λ x. x))
with_reset = (record clock { instant = 1150000000 }, ticks) ∷ (clock, resets) ∷ (clock, to_end) ∷ []

run_all-resets_example :
    (w : S) × (s : Session thousandths) × (from : ℕ) × ((animate thousandths thousandths
          (λ x. x)
          saved
          1000
          clock
        >>= λ w0. run_all thousandths thousandths (λ x. x) with_reset w0)
      ≡ some w)
    × (w.session ≡ some s)
    × (w.replay.current_index ≤ length saved.events)
    × (from ≤ w.replay.current_index)
    × IsReplayOf thousandths thousandths
        (λ x. x)
        saved.target
        saved.config
        (take (w.replay.current_index - from) (drop from (sort_by_offset saved.events)))
        s
run_all-resets_example =
    run_all-resets thousandths thousandths (λ x. x) saved 1000 clock with_reset late (early ∷ [])
      refl

lasts : 0 < total_duration (sort_by_offset saved.events)
unfolding total_duration sort_by_offset
lasts = omega arith

seek_replay_to-animate_example :
    (w : S) × (s : Session thousandths) × ((animate thousandths thousandths
          (λ x. x)
          saved
          1000
          clock
        >>= (λ w0. run_all thousandths thousandths (λ x. x) commands w0)
        >>= λ w1. seek_replay_to thousandths thousandths (λ x. x) clock 200 w1)
      ≡ some w)
    × (w.session ≡ some s)
    × (w.replay.paused ≡ true)
    × IsReplayOf thousandths thousandths
        (λ x. x)
        saved.target
        saved.config
        (keep (λ f. leb f.offset_ms 200) (sort_by_offset saved.events))
        s
seek_replay_to-animate_example =
    seek_replay_to-animate thousandths thousandths (λ x. x) saved 1000 clock clock commands late
      (early ∷ []) 200 refl commands-AllKept (omega arith) lasts

-- The seek to 200 ms shows the early event alone.
only_early : keep (λ f. leb f.offset_ms 200) (sort_by_offset saved.events) ≡ early ∷ []
unfolding sort_by_offset
only_early = refl

at_offset-sort_by_offset_example :
    at_offset 100 (sort_by_offset saved.events) ≡ at_offset 100 saved.events
at_offset-sort_by_offset_example = at_offset-sort_by_offset 100 saved.events

abbrev traced : Session thousandths
traced =
    flush thousandths still_waiting
      (live thousandths one_flow two_steps (Session.new thousandths host two_hops 5 7))

-- The two events that it records, both within its first millisecond.
abbrev first_event : ProbeEvent
first_event = record { offset_ms = 0; ttl = 2; seq = 1; flow_id = 0; outcome = reply (v4 8) 20 }

abbrev second_event : ProbeEvent
second_event = record { offset_ms = 0; ttl = 7; seq = 1; flow_id = 0; outcome = timed_out }

events-traced : traced.events ≡ first_event ∷ second_event ∷ []
unfolding flush live live_step apply_response answer_trace answer_hop record_event check_destination
    reach record_pending_timeout timeout_trace with_hop Session.new hops_from offset_ms
events-traced = refl

traced-IsSorted : IsSorted traced.events
traced-IsSorted = subst IsSorted (sym events-traced) ((omega arith, tt), (tt, tt))

animate-live_example :
    (w : S) × (s : Session thousandths) × ((animate thousandths thousandths
          (λ x. x)
          traced
          1000
          clock
        >>= (λ w0. run_all thousandths thousandths (λ x. x) commands w0)
        >>= λ w1. seek_replay_to_end thousandths thousandths (λ x. x) w1)
      ≡ some w)
    × (w.session ≡ some s)
    × (views thousandths traced ≡ with_losses thousandths still_waiting (views thousandths s))
animate-live_example =
    animate-live thousandths thousandths (λ x. x) one_flow two_steps still_waiting host two_hops 5 7
      traced 1000 clock commands first_event (second_event ∷ []) refl events-traced traced-IsSorted
      commands-AllKept
