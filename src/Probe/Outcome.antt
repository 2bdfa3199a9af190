-- ===== src/Probe/Outcome.antt =====
-- What a parser does with a packet: it returns a value, it returns `None`, or it panics on an
-- access outside the packet. Running out of fuel counts as a panic, so that a parser proved never
-- to panic has had enough fuel too.
pub mod Access
use ttl.Base.{
  ℕ, ◌+◌, ◌-◌, ◌*◌, ◌≡◌, refl, Bool, true, false, ◌&&◌, Option, none, some, List, [], ◌∷◌, leb,
  length, get_elem?, take, drop, if◌then◌else◌,
}
use ttl.Base.Bytes.{Bytes, be16}

pub data Outcome {ℓ} (A : Type ℓ) : Type ℓ where
  parsed : A → Outcome A
  rejected panicked : Outcome A

infixl 5 ◌>>=◌ ◌>>◌
abbrev pub ◌>>=◌ {ℓ κ} : {A : Type ℓ} {B : Type κ} → Outcome A → (A → Outcome B) → Outcome B
parsed a >>= f = f a
rejected >>= f = rejected
panicked >>= f = panicked

abbrev pub ◌>>◌ {ℓ} : {B : Type ℓ} → Outcome (Unit {0}) → Outcome B → Outcome B
m >> k = m >>= λ _. k

-- `if !test { return None; }`
abbrev pub require : Bool → Outcome (Unit {0})
require true = parsed tt
require false = rejected

-- `option?`
abbrev pub or_reject {ℓ} : {A : Type ℓ} → Option A → Outcome A
or_reject none = rejected
or_reject (some a) = parsed a

-- A value came out; and: there was no panic.
abbrev pub succeeds {ℓ} : {A : Type ℓ} → Outcome A → Bool
succeeds (parsed a) = true
succeeds rejected = false
succeeds panicked = false

abbrev pub is_safe {ℓ} : {A : Type ℓ} → Outcome A → Bool
is_safe (parsed a) = true
is_safe rejected = true
is_safe panicked = false

-- `bytes[i]`
unfoldable pub byte : Bytes → ℕ → Outcome ℕ
byte bytes i = elim (get_elem? bytes i) [ none ↦ panicked | some b ↦ parsed b ]

-- `&bytes[from..]` and `&bytes[from..to]`
unfoldable pub slice_from : Bytes → ℕ → Outcome Bytes
slice_from bytes from = if leb from (length bytes) then parsed (drop from bytes) else panicked

unfoldable pub slice : Bytes → ℕ → ℕ → Outcome Bytes
slice bytes from to =
    if leb from to && leb to (length bytes)
    then parsed (take (to - from) (drop from bytes))
    else panicked

-- `u16::from_be_bytes([bytes[i], bytes[i + 1]])`
unfoldable pub be16_at : Bytes → ℕ → Outcome ℕ
unfolding byte
be16_at bytes i = do a ← byte bytes i; b ← byte bytes (i + 1); parsed (be16 a b)

-- The number that a string of octets stands for, in network order.
unfoldable pub be_number : ℕ → Bytes → ℕ
be_number acc [] = acc
be_number acc (b ∷ bs) = be_number (acc * 256 + b) bs

-- A bind that gave a value had a value to go on with.
pub >>=-eq-parsed {ℓ κ} :
    {A : Type ℓ} {B : Type κ} (m : Outcome A) (f : A → Outcome B) {b : B}
    → (m >>= f) ≡ parsed b
    → (a : A) × (m ≡ parsed a) × (f a ≡ parsed b)
>>=-eq-parsed (parsed a) f h = (a, refl, h)
>>=-eq-parsed rejected f h = cc
>>=-eq-parsed panicked f h = cc
