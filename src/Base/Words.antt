-- ===== src/Base/Words.antt =====
-- Rust's unsigned integers as native numbers: what wraps in a release build is written out.
use Prim.Native.Nat.{ℕ, ◌+◌, ◌%◌, min}

-- `x + y` and `x += y` on a u8, a u16, a u32 and a u64.
abbrev pub add8 : ℕ → ℕ → ℕ
add8 x y = (x + y) % 256

abbrev pub add16 : ℕ → ℕ → ℕ
add16 x y = (x + y) % 65536

abbrev pub add32 : ℕ → ℕ → ℕ
add32 x y = (x + y) % 4294967296

abbrev pub add64 : ℕ → ℕ → ℕ
add64 x y = (x + y) % 18446744073709551616

-- `x.saturating_add(1)` on a u8; `saturating_sub` is the subtraction of ℕ.
abbrev pub saturating_inc8 : ℕ → ℕ
saturating_inc8 x = min (x + 1) 255
