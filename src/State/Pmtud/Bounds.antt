-- ===== src/State/Pmtud/Bounds.antt =====
-- state/session.rs, `PmtudState`: the bounds that the search keeps.
use ttl.Base.{ℕ, ◌+◌, ◌≤◌, ◌<◌, ◌≡◌, Bool, none, arith}
use ttl.State.Pmtud.{
  PmtudPhase, waiting_for_destination, searching, complete, PmtudState, new, record_success,
  record_failure, record_frag_needed, start_search,
}

-- The size under test lies above the size known to work and within the upper bound, and the
-- range is still open. A finished search holds nothing of its sizes.
abbrev pub Fits : PmtudPhase → PmtudState → Type 0
Fits waiting_for_destination s = (s.min_size + 8 ≤ s.max_size) × (s.discovered_mtu ≡ none)
Fits searching s =
    (s.min_size + 8 ≤ s.max_size)
    × (s.min_size < s.current_size)
    × (s.current_size ≤ s.max_size)
    × (s.discovered_mtu ≡ none)
Fits complete s = Unit

pub record IsValid (s : PmtudState) : Type 0 where
  pub limit : s.max_size ≤ 9216
  pub few_successes : s.successes < 2
  pub few_failures : s.failures < 2
  pub fits : Fits s.phase s

pub new-IsValid : (ipv6 jumbo : Bool) → IsValid (new ipv6 jumbo)
unfolding new
new-IsValid ipv6 jumbo = ground arith

-- Starting the search from a valid state that waits for its destination gives a valid state.
pub start_search-IsValid :
    (s : PmtudState) → s.phase ≡ waiting_for_destination → IsValid s → IsValid (start_search s)
unfolding start_search
start_search-IsValid s p v = ground arith

-- A success in a search under way keeps the state valid: the upper bound at most 9216, the counters
-- below 2, and, unless the search ends by it, the size under test above the lower bound, at most the
-- upper bound, and the bounds eight or more apart.
pub record_success-IsValid :
    (s : PmtudState) → s.phase ≡ searching → IsValid s → IsValid (record_success s)
unfolding record_success
record_success-IsValid s p v = ground arith

-- A failure in a search under way keeps the state valid, in the same sense.
pub record_failure-IsValid :
    (s : PmtudState) → s.phase ≡ searching → IsValid s → IsValid (record_failure s)
unfolding record_failure
record_failure-IsValid s p v = ground arith

-- A reported MTU, whatever its value, keeps the state of a search under way valid.
pub record_frag_needed-IsValid :
    (s : PmtudState) (mtu : ℕ)
    → s.phase ≡ searching
    → IsValid s
    → IsValid (record_frag_needed s mtu)
unfolding record_frag_needed
record_frag_needed-IsValid s mtu p v = ground arith
