-- ===== src/State/Hop/Tests.antt =====
-- The theorems on a hop and its responders, applied to small histories.
use ttl.Base.{
  ℕ, ◌%◌, ◌≤◌, ◌≡◌, true, false, some, none, List, [], ◌∷◌, ◌⊎◌, ◌↔◌, map, length, arith,
}
use ttl.Base.Net.{IpAddr, v4}
use ttl.Base.Float.{thousandths}
use ttl.Base.Windows.{last}
use ttl.Base.Assoc.{ip_key}
use ttl.State.Responder
use ttl.State.Responder.{ResponderStats}
use ttl.State.Responder.Window.{AllWithin, answers, answers-window}
use ttl.State.Hop
use ttl.State.Hop.{RouteChange, record_response_with_extensions, tracked_count, track, note_change}
use ttl.State.Hop.Responders.{
  IsConsistent, IsPrimary, new-IsConsistent, record_response_with_extensions-IsPrimary,
}
use ttl.State.Hop.History.{
  ProbeStep, probe_sent, timed_out, answered, results, sent_count, count_of, run, run-new,
}
use ttl.State.Hop.Ecmp.{has_ecmp, path_count, has_ecmp_iff}
use ttl.State.Hop.Flaps.{AllMoves, note_change-AllMoves}

abbrev times : List ℕ
times = 20000 ∷ 30000 ∷ []

answers-window_example :
    let s = answers thousandths (Responder.new thousandths (v4 1)) times in
    (s.received ≡ length times % 18446744073709551616)
    × (s.samples ≡ last 256 times)
    × (s.recent ≡ last 60 (map some times))
    × AllWithin s.min_rtt s.max_rtt times
answers-window_example = answers-window thousandths (v4 1) times

record_response_with_extensions-IsPrimary_example :
    let h' =
      record_response_with_extensions thousandths (v4 1) 20000 none none (Hop.new thousandths 3) in
    IsConsistent thousandths h'
    × ((best : IpAddr) × (s : ResponderStats thousandths) × IsPrimary thousandths h' best s)
record_response_with_extensions-IsPrimary_example =
    record_response_with_extensions-IsPrimary thousandths (v4 1) 20000 none none
      (Hop.new thousandths 3) (new-IsConsistent thousandths 3)

abbrev three : List ProbeStep
three = probe_sent ∷ answered true (v4 1) 20000 none none ∷ timed_out ∷ []

run-new_example :
    let h = run thousandths (Hop.new thousandths 3) three in
    (h.sent ≡ sent_count three % 18446744073709551616)
    × (h.received ≡ count_of true (results three) % 18446744073709551616)
    × (h.timeouts ≡ count_of false (results three) % 18446744073709551616)
    × (h.recent_results ≡ last 60 (results three))
run-new_example = run-new thousandths 3 three

abbrev change : RouteChange
change = record { from_ip = v4 1; to_ip = v4 2; at_seq = 6 }

change-AllMoves : AllMoves (change ∷ [])
change-AllMoves = (ground arith, tt)

note_change-AllMoves_example :
    let changes' = note_change 9 (some (v4 2)) (some (v4 1)) (change ∷ []) in
    (length changes' ≤ 50) × AllMoves changes' × ((5 ≤ 9) ⊎ (changes' ≡ change ∷ []))
note_change-AllMoves_example =
    note_change-AllMoves 9 (some (v4 2)) (some (v4 1)) (change ∷ []) (omega arith) change-AllMoves

-- A responder that has answered `received` times.
abbrev heard : IpAddr → ℕ → ResponderStats thousandths
heard ip received = record {
  ip = ip;
  mpls_labels = none;
  interface_info = none;
  sent = 0;
  received = received;
  min_rtt = 20000;
  max_rtt = 20000;
  mean_rtt = 20000;
  m2 = 0;
  jitter = 0;
  jitter_avg = 0;
  jitter_max = 0;
  last_rtt = some 20000;
  recent = [];
  samples = [];
}

abbrev two_heard : List (IpAddr × ResponderStats thousandths)
two_heard = (v4 1, heard (v4 1) 3) ∷ (v4 2, heard (v4 2) 5) ∷ []

-- A hop whose ten answers come from two responders.
has_ecmp_iff_example :
    let h = record (Hop.new thousandths 3) {
      received = 10;
      responders = (v4 1, heard (v4 1) 5) ∷ (v4 2, heard (v4 2) 5) ∷ [];
      primary = some (v4 2);
    } in
    (has_ecmp thousandths h ≡ true) ↔ (2 ≤ path_count thousandths h)
has_ecmp_iff_example = has_ecmp_iff thousandths (record (Hop.new thousandths 3) {
  received = 10;
  responders = (v4 1, heard (v4 1) 5) ∷ (v4 2, heard (v4 2) 5) ∷ [];
  primary = some (v4 2);
})
