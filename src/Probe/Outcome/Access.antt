-- ===== src/Probe/Outcome/Access.antt =====
-- Accesses within the packet do not panic, and what they return.
use ttl.Base.{
  ℕ, zero, suc, ◌+◌, ◌-◌, ◌≤◌, ◌<◌, ◌≡◌, refl, [], ◌∷◌, length, true, get_or, take, drop, arith,
  length-drop, length-take,
}
use ttl.Base.Bytes.{Bytes, be16}
use ttl.Probe.Outcome.{
  Outcome, parsed, rejected, panicked, byte, slice_from, slice, be16_at, succeeds,
}

pub byte-parsed : (bs : Bytes) (i : ℕ) → i < length bs → byte bs i ≡ parsed (get_or bs i 0)
unfolding byte
byte-parsed [] i h = absurd (omega arith)
byte-parsed (b ∷ bs) zero h = refl
byte-parsed (b ∷ bs) (suc i) h = unfold byte in byte-parsed bs i (omega arith)

pub be16_at-parsed :
    (bs : Bytes) (i : ℕ)
    → i + 1 < length bs
    → be16_at bs i ≡ parsed (be16 (get_or bs i 0) (get_or bs (i + 1) 0))
unfolding be16_at
be16_at-parsed bs i h = rw (byte-parsed bs i (omega arith), byte-parsed bs (i + 1) h)

pub slice_from-parsed :
    (bs : Bytes) (from : ℕ) → from ≤ length bs → slice_from bs from ≡ parsed (drop from bs)
unfolding slice_from
slice_from-parsed bs from h = ground arith

pub slice-parsed :
    (bs : Bytes) (from to : ℕ)
    → from ≤ to
    → to ≤ length bs
    → slice bs from to ≡ parsed (take (to - from) (drop from bs))
unfolding slice
slice-parsed bs from to h k = ground arith

pub length-slice :
    (bs : Bytes) (from to : ℕ)
    → from ≤ to
    → to ≤ length bs
    → length (take (to - from) (drop from bs)) ≡ to - from
length-slice bs from to h k =
    omega (arith, length-take (to - from) (drop from bs), length-drop from bs)

pub succeeds-parsed {ℓ} :
    {A : Type ℓ} (m : Outcome A) → succeeds m ≡ true → (a : A) × (m ≡ parsed a)
succeeds-parsed (parsed a) h = (a, refl)
succeeds-parsed rejected h = cc
succeeds-parsed panicked h = cc
