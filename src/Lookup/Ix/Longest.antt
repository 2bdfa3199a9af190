-- ===== src/Lookup/Ix/Longest.antt =====
-- lookup/ix.rs: the first bits of two addresses against their quotients, and the longest part at
-- which there is something.
use native.Mathlib.Nat.{div-div-eq-div-mul, pow-succ'}
use native.Mathlib.Decide.{ℕ_discrete}
use ttl.Base.{
  ℕ, zero, suc, ◌+◌, ◌-◌, ◌*◌, ◌/◌, ◌%◌, ◌^◌, ◌<◌, ◌≤◌, ◌≡◌, ◌∙◌, refl, sym, ap, Option, none, some,
  [], ◌∷◌, length, arith, Option-cases, Bool-cases, inl, inr, ◌↔◌, ◌==◌,
}
use ttl.Lookup.Ix.{bit_at}
use ttl.Lookup.Ix.Paths.{Bits}
use ttl.Lookup.Ix.Insert.{leading}
use ttl.Lookup.Ix.Search.{longest}

pub length-leading : (bits n : ℕ) → length (leading bits n) ≡ n
unfolding leading
length-leading bits zero = refl
length-leading bits (suc n) = ap suc (length-leading bits n)

halves : (x k : ℕ) → x / 2 ^ (k + 1) ≡ x / 2 ^ k / 2
halves x k =
    let one_more : k + 1 ≡ suc k = omega arith in
    let turned : 2 * 2 ^ k ≡ 2 ^ k * 2 = omega arith in
    ap (λ m. x / m) (ap (λ m. 2 ^ m) one_more ∙ pow-succ' 2 k ∙ turned)
    ∙ sym (div-div-eq-div-mul x (2 ^ k) 2)

by_half : (a b : ℕ) → (a % 2 == 1) ≡ (b % 2 == 1) → a / 2 ≡ b / 2 → a ≡ b
by_half a b odd half = elim (Bool-cases (a % 2 == 1)) [
  | inl one ↦ ground (arith, one, sym odd ∙ one, half)
  | inr other ↦ ground (arith, other, sym odd ∙ other, half)
]

-- Addresses that agree in their first bits are those whose quotients agree.
pub leading_iff :
    (x y n : ℕ)
    → n ≤ 128
    → x < 2 ^ 128
    → y < 2 ^ 128
    → (leading x n ≡ leading y n) ↔ (x / 2 ^ (128 - n) ≡ y / 2 ^ (128 - n))
unfolding leading
leading_iff x y zero h hx hy = (λ e. omega arith, λ e. refl)
leading_iff x y (suc n) h hx hy =
    let k = 127 - n in
    let wide : 128 - n ≡ k + 1 = omega arith in
    let narrow : 128 - suc n ≡ k = omega arith in
    let at : (z : ℕ) → z / 2 ^ (128 - n) ≡ z / 2 ^ k / 2 =
      λ z. ap (λ m. z / 2 ^ m) wide ∙ halves z k in
    let both = leading_iff x y n (omega arith) hx hy in
    (
      λ (e : bit_at x n ∷ leading x n ≡ bit_at y n ∷ leading y n).
          let first : bit_at x n ≡ bit_at y n = cc in
          let rest : leading x n ≡ leading y n = cc in
          let quotients = sym (at x) ∙ both.0 rest ∙ at y in
          ap (λ m. x / 2 ^ m) narrow
          ∙ by_half (x / 2 ^ k) (y / 2 ^ k) first quotients
          ∙ ap (λ m. y / 2 ^ m) (sym narrow),
      λ e.
          let same : x / 2 ^ k ≡ y / 2 ^ k =
            ap (λ m. x / 2 ^ m) (sym narrow) ∙ e ∙ ap (λ m. y / 2 ^ m) narrow in
          let rest = both.1 (at x ∙ ap (λ z. z / 2) same ∙ sym (at y)) in
          ap (λ z. (z % 2 == 1) ∷ leading x n) same ∙ ap (λ r. bit_at y n ∷ r) rest,
    )

-- Nothing at any part up to `n` bits, or something at one and nothing at the longer ones.
pub data Outcome (f : Bits → Option ℕ) (bits n : ℕ) : Option ℕ → Type 0 where
  nowhere : ((m : ℕ) → m ≤ n → f (leading bits m) ≡ none) → Outcome f bits n none
  at :
      (i m : ℕ)
      → m ≤ n
      → f (leading bits m) ≡ some i
      → ((k : ℕ) → m < k → k ≤ n → f (leading bits k) ≡ none)
      → Outcome f bits n (some i)

only : (f : Bits → Option ℕ) (bits : ℕ) → f [] ≡ none → (m : ℕ) → m ≤ 0 → f (leading bits m) ≡ none
unfolding leading
only f bits gone zero h = gone
only f bits gone (suc m) h = absurd (omega arith)

or_last :
    (f : Bits → Option ℕ) (bits n k : ℕ)
    → f (leading bits (suc n)) ≡ none
    → k ≤ suc n
    → (k ≤ n → f (leading bits k) ≡ none)
    → f (leading bits k) ≡ none
or_last f bits n k gone h below = elim (ℕ_discrete k (suc n)) [
  | yes e ↦ ap (λ m. f (leading bits m)) e ∙ gone
  | no ne ↦ below (omega arith)
]

wider :
    (f : Bits → Option ℕ) (bits n : ℕ)
    → f (leading bits (suc n)) ≡ none
    → (o : Option ℕ) → Outcome f bits n o
    → Outcome f bits (suc n) o
wider f bits n gone _ (nowhere all) = nowhere λ m h. or_last f bits n m gone h (all m)
wider f bits n gone _ (at i m h there longer) =
    at i m (omega arith) there λ k above h'. or_last f bits n k gone h' (longer k above)

pub longest-Outcome : (f : Bits → Option ℕ) (bits n : ℕ) → Outcome f bits n (longest f bits n)
unfolding longest leading
longest-Outcome f bits zero = elim (Option-cases (f [])) [
  | inl gone ↦ rw gone (nowhere (only f bits gone))
  | inr (i, there) ↦ rw there (at i 0 (omega arith) there (λ k h1 h2. absurd (omega arith)))
]
longest-Outcome f bits (suc n) = elim (Option-cases (f (leading bits (suc n)))) [
  | inl gone ↦ rw gone (wider f bits n gone (longest f bits n) (longest-Outcome f bits n))
  | inr (i, there) ↦ rw there (at i (suc n) (omega arith) there (λ k h1 h2. absurd (omega arith)))
]
