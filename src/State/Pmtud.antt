-- ===== src/State/Pmtud.antt =====
-- state/session.rs: the binary search for the path MTU (`PmtudPhase`, `PmtudState`).
-- Sizes are u16, counters are u8.
pub mod Bounds
pub mod Search
use ttl.Base.{ℕ, ◌+◌, ◌-◌, ◌/◌, min, Bool, true, false, Option, none, some, ltb, leb, if◌then◌else◌}
use ttl.Base.Words.{add8, add16}

pub data PmtudPhase : Type 0 where
  waiting_for_destination searching complete : PmtudPhase

pub record PmtudState : Type 0 where
  pub min_size : ℕ
  pub max_size : ℕ
  pub current_size : ℕ
  pub successes : ℕ
  pub failures : ℕ
  pub discovered_mtu : Option ℕ
  pub phase : PmtudPhase

unfoldable pub new : Bool → Bool → PmtudState
new ipv6 jumbo =
    let min : ℕ = if ipv6 then 1280 else 68 in
    let max : ℕ = if jumbo then 9216 else 1500 in
    record {
      min_size = min;
      max_size = max;
      current_size = max;
      successes = 0;
      failures = 0;
      discovered_mtu = none;
      phase = waiting_for_destination;
    }

abbrev pub is_converged : PmtudState → Bool
is_converged s = ltb (s.max_size - s.min_size) 8

abbrev pub next_probe_size : PmtudState → ℕ
next_probe_size s = add16 s.min_size s.max_size / 2

pub advance : PmtudState → PmtudState
advance s =
    if is_converged s
    then record s { discovered_mtu = some s.min_size; phase = complete }
    else record s { current_size = next_probe_size s }

pub record_success : PmtudState → PmtudState
unfolding advance
record_success s =
    if ltb 0 s.failures
    then record s { failures = 0; successes = 1 }
    else let counted : PmtudState = record s { successes = add8 s.successes 1 } in
      if leb 2 counted.successes
      then advance (record counted { min_size = s.current_size; successes = 0; failures = 0 })
      else counted

pub record_failure : PmtudState → PmtudState
unfolding advance
record_failure s =
    if ltb 0 s.successes
    then record s { successes = 0; failures = 1 }
    else let counted : PmtudState = record s { failures = add8 s.failures 1 } in
      if leb 2 counted.failures
      then advance (record counted { max_size = s.current_size - 1; successes = 0; failures = 0 })
      else counted

pub record_frag_needed : PmtudState → ℕ → PmtudState
unfolding advance
record_frag_needed s reported_mtu =
    if ltb reported_mtu s.max_size
    then record s {
      discovered_mtu = some reported_mtu;
      phase = complete;
      max_size = reported_mtu;
      min_size = min s.min_size reported_mtu;
    }
    else advance (record s { max_size = min s.max_size reported_mtu; successes = 0; failures = 0 })

pub start_search : PmtudState → PmtudState
start_search s = record s { phase = searching; current_size = s.max_size }
