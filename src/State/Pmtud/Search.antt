-- ===== src/State/Pmtud/Search.antt =====
-- The search of state/session.rs against a path of one fixed MTU.
use ttl.Base.{
  ℕ, zero, suc, ◌+◌, ◌-◌, ◌*◌, ◌/◌, ◌^◌, ◌≤◌, ◌<◌, ◌≡◌, sym, Bool, some, ◌⊎◌, inl, inr, arith, leb,
  if◌then◌else◌,
}
use native.Mathlib.Nat.{pow-suc}
use ttl.State.Pmtud.{
  searching, complete, PmtudState, new, record_success, record_failure, start_search,
}

-- What a probe of the current size does to the search on a path of MTU `m`: it is answered if it
-- fits, and times out if it does not. Only a search under way listens.
answer : ℕ → PmtudState → PmtudState
answer m s = elim s.phase [
  | searching ↦ if leb s.current_size m then record_success s else record_failure s
  | _ ↦ s
]

-- `n` times two probes.
pub rounds : ℕ → ℕ → PmtudState → PmtudState
rounds zero m s = s
rounds (suc n) m s = rounds n m (answer m (answer m s))

-- A search that ended within eight bytes below `m`.
record Found (m : ℕ) (s : PmtudState) : Type 0 where
  pub ended : s.phase ≡ complete
  pub known : s.discovered_mtu ≡ some s.min_size
  pub below : s.min_size ≤ m
  pub near : m < s.min_size + 8

-- A search under way between two confirmed sizes, about to test the size `c`.
record Open (m c : ℕ) (s : PmtudState) : Type 0 where
  pub running : s.phase ≡ searching
  pub fresh_successes : s.successes ≡ 0
  pub fresh_failures : s.failures ≡ 0
  pub current : s.current_size ≡ c
  pub above : s.min_size + 8 ≤ s.max_size
  pub limit : s.max_size ≤ 9216
  pub low : s.min_size ≤ m
  pub high : m ≤ s.max_size

rounds-Found : (n m : ℕ) (s : PmtudState) → Found m s → Found m (rounds n m s)
unfolding rounds answer
rounds-Found zero m s f = f
rounds-Found (suc n) m s f = ground (arith, rounds-Found n m (answer m (answer m s)))

abbrev middle : PmtudState → ℕ
middle s = (s.min_size + s.max_size) / 2

-- Two probes of the middle confirm it or refute it, and halve the range.
halve :
    (m : ℕ) (s : PmtudState)
    → Open m (middle s) s
    → let t = answer m (answer m s) in
      Found m t
      ⊎ (Open m (middle t) t × (t.max_size - t.min_size ≤ (s.max_size - s.min_size + 1) / 2))
unfolding answer record_success record_failure
halve m s o = ground arith

-- Two probes of the upper bound end the search, or lower the bound by one.
first_round :
    (m : ℕ) (s : PmtudState) {c : ℕ}
    → c ≡ s.max_size
    → Open m c s
    → let t = answer m (answer m s) in
      Found m t ⊎ (Open m (middle t) t × (t.max_size - t.min_size ≤ s.max_size - s.min_size))
unfolding answer record_success record_failure
first_round m s e o = ground arith

-- A range of at most 7 * 2 ^ k sizes is searched in `k` rounds.
rounds-Open :
    (k m : ℕ) (s : PmtudState)
    → Open m (middle s) s
    → s.max_size - s.min_size ≤ 7 * 2 ^ k
    → Found m (rounds k m s)
unfolding rounds
rounds-Open zero m s o w = absurd (let a = o.above in omega arith)
rounds-Open (suc k) m s o w = elim (halve m s o) [
  | inl f ↦ rounds-Found k m _ f
  | inr (o', w') ↦ rounds-Open k m _ o' (let e = pow-suc 2 k in omega arith)
]

-- The bounds that `new` starts from.
abbrev pub lowest : Bool → ℕ
lowest ipv6 = if ipv6 then 1280 else 68

abbrev pub highest : Bool → ℕ
highest jumbo = if jumbo then 9216 else 1500

start-Open :
    (ipv6 jumbo : Bool) (m : ℕ)
    → lowest ipv6 ≤ m
    → m ≤ highest jumbo
    → Open m (highest jumbo) (start_search (new ipv6 jumbo))
unfolding new start_search
start-Open ipv6 jumbo m lo hi = ground arith

width-start :
    (ipv6 jumbo : Bool)
    → let s = start_search (new ipv6 jumbo) in
      (s.max_size ≡ highest jumbo) × (s.max_size - s.min_size ≤ 7 * 2 ^ 11)
unfolding new start_search
width-start ipv6 jumbo = ground arith

-- On a path whose MTU `m` lies between the bounds that the search starts from, twelve rounds of
-- two probes (each answered exactly if it fits) complete the search, whatever the address family
-- and the jumbo setting: the discovered MTU is at most `m` and less than eight bytes below it.
pub rounds-new :
    (ipv6 jumbo : Bool) (m : ℕ)
    → lowest ipv6 ≤ m
    → m ≤ highest jumbo
    → let s = rounds 12 m (start_search (new ipv6 jumbo)) in
      (s.phase ≡ complete) × (d : ℕ) × (s.discovered_mtu ≡ some d) × (d ≤ m) × (m < d + 8)
unfolding rounds
rounds-new ipv6 jumbo m lo hi =
    let o = start-Open ipv6 jumbo m lo hi in
    let w = width-start ipv6 jumbo in
    let f : Found m (rounds 12 m (start_search (new ipv6 jumbo))) =
      elim (first_round m _ (sym w.0) o) [
        | inl f ↦ rounds-Found 11 m _ f
        | inr (o', w') ↦ rounds-Open 11 m _ o' (omega arith)
      ] in
    (f.ended, _, f.known, f.below, f.near)

-- On a path that carries the largest size of the search, two probes complete it with that size.
pub rounds-full :
    (ipv6 jumbo : Bool) (m : ℕ)
    → highest jumbo ≤ m
    → let s = rounds 1 m (start_search (new ipv6 jumbo)) in
      (s.phase ≡ complete) × (s.discovered_mtu ≡ some (highest jumbo))
unfolding rounds answer new start_search record_success record_failure
rounds-full ipv6 jumbo m h = ground arith
