-- ===== src/State/Tests.antt =====
-- The theorems on the state of a trace, applied to small cases.
use ttl.Base.{
  ℕ, ◌+◌, ◌≤◌, ◌<◌, ◌≡◌, refl, true, false, none, some, List, [], ◌∷◌, ◌++◌, arith, take, length,
  ltb,
}
use ttl.Base.Assoc.{ip_key}
use ttl.Base.Float.{thousandths}
use ttl.State.Pmtud
use ttl.State.Pmtud.{
  PmtudState, searching, complete, record_success, record_failure, record_frag_needed, start_search,
}
use ttl.State.Pmtud.Bounds
use ttl.State.Pmtud.Bounds.{
  new-IsValid, start_search-IsValid, record_success-IsValid, record_failure-IsValid,
  record_frag_needed-IsValid,
}
use ttl.State.Pmtud.Search.{rounds, rounds-new}
use ttl.State.Nat.{or_no_info, total_checks, has_nat}
use ttl.State.Nat.Samples.{checks, rewrites, checks-fresh}
use ttl.State.TtlManip
use ttl.State.TtlManip.{TtlManipInfo, record_sample}
use ttl.State.TtlManip.Hysteresis
use ttl.State.TtlManip.Hysteresis.{
  samples, samples-clear, record_sample-IsValid, record_sample-calm, record_sample-no_decrement,
}
use ttl.State.Asymmetry.{AsymmetryInfo}

rounds-new_example :
    let s = rounds 12 1400 (start_search (Pmtud.new false false)) in
    (s.phase ≡ complete) × (d : ℕ) × (s.discovered_mtu ≡ some d) × (d ≤ 1400) × (1400 < d + 8)
rounds-new_example = rounds-new false false 1400 (omega arith) (omega arith)

abbrev under_way : PmtudState
under_way = record {
  min_size = 68;
  max_size = 1500;
  current_size = 784;
  successes = 1;
  failures = 0;
  discovered_mtu = none;
  phase = searching;
}

under_way-IsValid : Bounds.IsValid under_way
under_way-IsValid = ground arith

abbrev ports : List (ℕ × ℕ)
ports = (50000, 50000) ∷ (50001, 61000) ∷ []

checks-fresh_example :
    let n = or_no_info (checks none ports) in
    (total_checks n ≡ 2)
    × (n.port_rewritten ≡ length (rewrites ports))
    × (has_nat n ≡ ltb 0 (length (rewrites ports)))
    × (n.rewrite_samples ≡ take 10 (rewrites ports))
checks-fresh_example = checks-fresh ports (omega arith)

abbrev proxied : TtlManipInfo thousandths
proxied = record {
  normal_samples = 3;
  anomalous_samples = 2;
  no_decrement_samples = 2;
  suspected = true;
  confidence = 900;
  reason = some TtlManip.not_decremented;
  last_quoted_ttl = some 5;
  negative_checks = 0;
}

abbrev young : TtlManipInfo thousandths
young = record {
  normal_samples = 2;
  anomalous_samples = 1;
  no_decrement_samples = 0;
  suspected = false;
  confidence = 0;
  reason = none;
  last_quoted_ttl = some 1;
  negative_checks = 0;
}

proxied-IsValid : Hysteresis.IsValid thousandths proxied
proxied-IsValid = ground arith

young-IsValid : Hysteresis.IsValid thousandths young
young-IsValid = ground arith

-- Quoted times to live of 0 and 1 in turns.
abbrev quiet : List (ℕ × ℕ)
quiet = (6, 1) ∷ (6, 0) ∷ (6, 1) ∷ (6, 1) ∷ (6, 0) ∷ (6, 1) ∷ (6, 0) ∷ (6, 0) ∷ (6, 1) ∷ []

quiet-AllNormal : Hysteresis.AllNormal thousandths quiet
quiet-AllNormal = ground arith

samples-clear_example :
    let t' = samples thousandths (quiet ++ ((6, 0) ∷ [])) proxied in
    ((samples thousandths quiet proxied).suspected ≡ true)
    × (t'.suspected ≡ false)
    × (t'.reason ≡ none)
    × (t'.anomalous_samples ≡ 0)
    × (t'.no_decrement_samples ≡ 0)
samples-clear_example =
    samples-clear thousandths quiet quiet 6 0 proxied quiet-AllNormal quiet-AllNormal (omega arith)
      refl refl (omega arith) refl

abbrev unsampled : AsymmetryInfo thousandths
unsampled = record {
  asymmetric_samples = 0;
  symmetric_samples = 0;
  suspected = false;
  confidence = 0;
  avg_hop_difference = 0;
  last_return_hops = none;
  variance = 0;
  m2 = 0;
  mean_diff = 0;
}
