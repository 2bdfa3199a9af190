-- ===== src/Trace/Tests.antt =====
-- The theorems on the receiver, applied to small maps.
use ttl.Base.{◌+◌, ◌<◌, ◌≡◌, ◌↔◌, ◌⊎◌, refl, true, false, none, some, length, List, [], ◌∷◌, arith}
use ttl.Base.Net.{v4}
use ttl.Base.Assoc.{get}
use ttl.Base.Removal.{remove}
use ttl.Base.Float.{thousandths}
use ttl.Probe.Response.{echo_reply, ParsedResponse}
use ttl.Trace.Receiver.Loop.{find_probe}
use ttl.Trace.Receiver.Found.{TakenFrom, IsAmong, find_probe-Taken}
use ttl.State.Session
use ttl.State.Session.{Session, Clock, hops_from, record_event, reach, with_hop}
use ttl.State.Session.Sample.{two_hops, host, begun}
use ttl.Trace.Sample.{probe_id, sent, one_flow, at_10, answer, two_steps, still_waiting}
use ttl.State.Session.Invariant.{IsTtl}
use ttl.State.Session.Replay.{views}
use ttl.Trace.Receiver.Apply.{apply_response, answer_trace, check_destination}
use ttl.Trace.Receiver.Steps.{IsSound}
use ttl.Trace.Receiver.Live.{live, replays}
use ttl.Trace.Receiver.Replayed.{flush, with_losses, replays-live-new}
use ttl.Trace.Engine.{check_pmtud_ready, clamp_pmtud}
use ttl.Trace.Engine.Poll.{Datagram, AllInRange, poll_ipv6_echo_reply}
use ttl.Trace.Engine.Reachable
use ttl.Trace.Engine.Reachable.{
  Step, Reachable, ready, too_large, polled, here, next, Reachable-IsSound,
}
use ttl.Trace.Pending.{PendingMap, pending_key}
use ttl.Trace.Receiver.{
  derive_flow_hint, key_for, flows_of, remove_unambiguous, remove_pending_by_flow_hint,
}
use ttl.Trace.Receiver.Hints.{derive_flow_hint_iff, derive_flow_hint-lost}
use ttl.Trace.Receiver.Matching.{remove_pending-unambiguous}

derive_flow_hint_iff_example :
    (derive_flow_hint 50000 4 (some 50003) ≡ some 3) ↔ ((50003 ≡ 50000 + 3) × (3 < 4))
derive_flow_hint_iff_example = derive_flow_hint_iff 50000 4 50003 3 (omega arith) (omega arith)

derive_flow_hint-lost_example : derive_flow_hint 65520 16 (some 65520) ≡ none
derive_flow_hint-lost_example = derive_flow_hint-lost 65520 16 65520 (omega arith)

-- A normal probe and one of the path MTU search, of different flows.
abbrev waiting : PendingMap
waiting = (key_for probe_id 2 (v4 8) false, sent 2) ∷ (key_for probe_id 0 (v4 8) true, sent 0) ∷ []

-- An Echo Reply of the target to the probe.
abbrev reply_of_8 : ParsedResponse
reply_of_8 = record {
  responder = v4 8;
  probe_id = probe_id;
  response_type = echo_reply;
  is_pmtud = true;
  mpls_labels = none;
  interface_info = none;
  src_port = none;
  mtu = none;
  quoted_ttl = none;
  original_dest = some (v4 8);
}

find_probe-Taken_example :
    TakenFrom
      (λ t. (some (v4 8) ≡ some t) ⊎ IsAmong t (v4 8 ∷ []))
      waiting
      probe_id
      none
      (find_probe (v4 8 ∷ []) waiting reply_of_8 none)
find_probe-Taken_example = find_probe-Taken (v4 8 ∷ []) waiting reply_of_8 none

remove_pending-unambiguous_example : sent 2 ≡ sent 2
unfolding remove_pending_by_flow_hint flows_of get remove remove_unambiguous
remove_pending-unambiguous_example =
    remove_pending-unambiguous waiting probe_id (v4 8) 2 (sent 2) (sent 2) refl refl

replays-live-new_example :
    let s =
      flush thousandths still_waiting
        (live thousandths one_flow two_steps (Session.new thousandths host two_hops 5 7)) in
    views thousandths s
    ≡ with_losses thousandths still_waiting (
        views thousandths
          (replays thousandths s.events (Session.new thousandths host two_hops 100 200)))
replays-live-new_example =
    replays-live-new thousandths one_flow two_steps still_waiting host two_hops 5 7 100 200

-- The target answers, the search begins, and a probe of it is answered.
abbrev after_answer : Session thousandths
after_answer = apply_response thousandths one_flow at_10 (answer none) begun

two_in_range : IsTtl (length begun.hops) (some 2)
unfolding Session.new hops_from
two_in_range = ground arith

-- A probe of the first hop waits, and the engine reads a reply to it.
abbrev first_hop_waiting : PendingMap
first_hop_waiting = (key_for (record { ttl = 1; seq = 1 }) 0 (v4 8) false, sent 0) ∷ []

one_in_range : AllInRange (length after_answer.hops) first_hop_waiting
unfolding apply_response answer_trace check_destination record_event reach with_hop Session.new
    hops_from
one_in_range = ground arith

abbrev datagrams : List Datagram
datagrams =
    record {
      now = 300;
      response_ttl = some 60;
      parsed = some (record reply_of_8 { probe_id = record { ttl = 1; seq = 1 } });
    }
    ∷ []

abbrev after_poll : Session thousandths
after_poll = (poll_ipv6_echo_reply thousandths (v4 8) datagrams (first_hop_waiting, after_answer)).1

-- The search then begins, and a size is refused that is not the one under test.
begun_run :
    Reachable thousandths begun
      (clamp_pmtud thousandths 1400 (check_pmtud_ready thousandths after_poll).1)
begun_run =
    next
      (next
        (next (next here (Reachable.responded one_flow at_10 (answer none) begun two_in_range))
          (polled (v4 8) datagrams first_hop_waiting after_answer one_in_range))
        (ready after_poll))
      (too_large 1400 (check_pmtud_ready thousandths after_poll).1 (omega arith))

Reachable-IsSound_example :
    IsSound thousandths (clamp_pmtud thousandths 1400 (check_pmtud_ready thousandths after_poll).1)
Reachable-IsSound_example = Reachable-IsSound thousandths host two_hops 5 7 begun_run
