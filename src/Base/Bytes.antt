-- ===== src/Base/Bytes.antt =====
-- Byte strings as lists of numbers, and big-endian words.
use Prim.Native.Nat.{ℕ, ◌+◌, ◌*◌, ◌<◌}
use mathlib.Core.List.{List, [], ◌∷◌}

abbrev pub Bytes : Type 0
Bytes = List ℕ

-- Every member is a byte.
abbrev pub AreBytes : Bytes → Type 0
AreBytes [] = Unit
AreBytes (b ∷ bs) = (b < 256) × AreBytes bs

-- `u16::from_be_bytes` and `u32::from_be_bytes`.
abbrev pub be16 : ℕ → ℕ → ℕ
be16 a b = a * 256 + b

abbrev pub be32 : ℕ → ℕ → ℕ → ℕ → ℕ
be32 a b c d = ((a * 256 + b) * 256 + c) * 256 + d
