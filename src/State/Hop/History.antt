-- ===== src/State/Hop/History.antt =====
-- state/session.rs, `Hop`: the counters and the sparkline after a history of probes.
use ttl.Base.{ℕ, ◌+◌, ◌%◌, ◌≡◌, refl, ◌∙◌, Bool, true, false, Option, List, [], ◌∷◌, arith}
use ttl.Base.Net.{IpAddr}
use ttl.Base.Float.{Float}
use ttl.Base.Windows.{push_capped, last, pushes, pushes-last}
use ttl.Probe.Mpls.{MplsLabel}
use ttl.Probe.Extensions.Interface.{IcmpInterfaceInfo}
use ttl.State.Hop
use ttl.State.Hop.{
  Hop, record_sent, record_timeout, record_response_with_extensions,
  record_response_detecting_flaps_with_extensions,
}

-- What happens to a probe of a hop. An answer is recorded with or without the detection of route
-- changes.
pub data ProbeStep : Type 0 where
  probe_sent timed_out : ProbeStep
  answered :
      Bool → IpAddr → ℕ → Option (List MplsLabel) → Option (List IcmpInterfaceInfo) → ProbeStep

-- The results in order: true for an answer, false for a timeout.
pub results : List ProbeStep → List Bool
results [] = []
results (probe_sent ∷ steps) = results steps
results (timed_out ∷ steps) = false ∷ results steps
results (answered _ _ _ _ _ ∷ steps) = true ∷ results steps

pub sent_count : List ProbeStep → ℕ
sent_count [] = 0
sent_count (probe_sent ∷ steps) = sent_count steps + 1
sent_count (timed_out ∷ steps) = sent_count steps
sent_count (answered _ _ _ _ _ ∷ steps) = sent_count steps

-- How many results are answers, and how many timeouts.
pub count_of : Bool → List Bool → ℕ
count_of b [] = 0
count_of true (true ∷ bs) = count_of true bs + 1
count_of true (false ∷ bs) = count_of true bs
count_of false (true ∷ bs) = count_of false bs
count_of false (false ∷ bs) = count_of false bs + 1

module _ (f64 : Float) where
  pub step : ProbeStep → Hop f64 → Hop f64
  step probe_sent h = record_sent f64 h
  step timed_out h = record_timeout f64 h
  step (answered true ip rtt labels info) h =
      record_response_detecting_flaps_with_extensions f64 ip rtt labels info h
  step (answered false ip rtt labels info) h =
      record_response_with_extensions f64 ip rtt labels info h

  pub run : Hop f64 → List ProbeStep → Hop f64
  run h [] = h
  run h (s ∷ steps) = run (step s h) steps

  -- What an answer does to the counters.
  record Answered (h h' : Hop f64) : Type 0 where
    more : h'.received ≡ (h.received + 1) % 18446744073709551616
    same_sent : h'.sent ≡ h.sent
    same_timeouts : h'.timeouts ≡ h.timeouts
    pushed : h'.recent_results ≡ push_capped 60 h.recent_results true

  answered-Answered :
      (b : Bool) (ip : IpAddr) (rtt : ℕ) (labels : Option (List MplsLabel))
      (info : Option (List IcmpInterfaceInfo)) (h : Hop f64)
      → Answered h (step (answered b ip rtt labels info) h)
  unfolding step record_response_with_extensions record_response_detecting_flaps_with_extensions
  answered-Answered true ip rtt labels info h = record {
    more = refl;
    same_sent = refl;
    same_timeouts = refl;
    pushed = refl;
  }
  answered-Answered false ip rtt labels info h = record {
    more = refl;
    same_sent = refl;
    same_timeouts = refl;
    pushed = refl;
  }

  run-recent :
      (h : Hop f64) (steps : List ProbeStep)
      → (run h steps).recent_results ≡ pushes 60 h.recent_results (results steps)
  unfolding run step results pushes record_sent record_timeout
  run-recent h [] = refl
  run-recent h (probe_sent ∷ steps) = run-recent (record_sent f64 h) steps
  run-recent h (timed_out ∷ steps) = run-recent (record_timeout f64 h) steps
  run-recent h (answered b ip rtt labels info ∷ steps) =
      let one = answered-Answered b ip rtt labels info h in
      run-recent (step (answered b ip rtt labels info) h) steps ∙ rw (one.pushed)

  run-counters :
      (h : Hop f64) (steps : List ProbeStep)
      → h.sent % 18446744073709551616 ≡ h.sent
      → h.received % 18446744073709551616 ≡ h.received
      → h.timeouts % 18446744073709551616 ≡ h.timeouts
      → let t = run h steps in
        (t.sent ≡ (h.sent + sent_count steps) % 18446744073709551616)
        × (t.received ≡ (h.received + count_of true (results steps)) % 18446744073709551616)
        × (t.timeouts ≡ (h.timeouts + count_of false (results steps)) % 18446744073709551616)
  unfolding run step results sent_count count_of record_sent record_timeout
  run-counters h [] a b c = omega arith
  run-counters h (probe_sent ∷ steps) a b c =
      let rest = run-counters (record_sent f64 h) steps (omega arith) b c in omega arith
  run-counters h (timed_out ∷ steps) a b c =
      let rest = run-counters (record_timeout f64 h) steps a b (omega arith) in omega arith
  run-counters h (answered d ip rtt labels info ∷ steps) a b c =
      let one = answered-Answered d ip rtt labels info h in
      let m = one.more in
      let s = one.same_sent in
      let t = one.same_timeouts in
      let rest =
        run-counters (step (answered d ip rtt labels info) h) steps (omega arith) (omega arith)
          (omega arith) in
      omega arith

  -- After any history of probes sent, answered and timed out at a new hop: each is counted once,
  -- modulo 2 ^ 64, and the sparkline is the last sixty results in their order.
  pub run-new :
      (ttl : ℕ) (steps : List ProbeStep)
      → let h = run (Hop.new f64 ttl) steps in
        (h.sent ≡ sent_count steps % 18446744073709551616)
        × (h.received ≡ count_of true (results steps) % 18446744073709551616)
        × (h.timeouts ≡ count_of false (results steps) % 18446744073709551616)
        × (h.recent_results ≡ last 60 (results steps))
  unfolding Hop.new last
  run-new ttl steps =
      let h = Hop.new f64 ttl in
      let n = run-counters h steps refl refl refl in
      (
        omega arith,
        omega arith,
        omega arith,
        run-recent h steps ∙ pushes-last 60 [] (results steps),
      )
