-- ===== src/Probe/Checksum.antt =====
-- The Internet checksum (RFC 1071): `internet_checksum` of probe/rawip.rs, and
-- `validate_icmp_checksum` of probe/correlate.rs. Sums are u32; the folding loops run on fuel.
pub mod Sum
pub mod Verify
use ttl.Base.{
  ℕ, zero, suc, ◌+◌, ◌-◌, ◌*◌, ◌/◌, ◌%◌, Bool, true, false, ◌||◌, List, [], ◌∷◌, ltb, ◌==◌, length,
  if◌then◌else◌,
}
use ttl.Base.Words.{add32}
use ttl.Base.Bytes.{Bytes, be16}

-- The 16-bit words from the front on, and a last odd byte as the high byte of a word.
unfoldable pub sum_words : ℕ → Bytes → ℕ
sum_words sum [] = sum
sum_words sum (a ∷ []) = add32 sum (a * 256)
sum_words sum (a ∷ b ∷ rest) = sum_words (add32 sum (be16 a b)) rest

-- `while sum >> 16 != 0 { sum = (sum & 0xFFFF) + (sum >> 16) }`
unfoldable pub fold_carries : ℕ → ℕ → ℕ
fold_carries zero sum = sum
fold_carries (suc fuel) sum =
    let rest = fold_carries fuel (add32 (sum % 65536) (sum / 65536)) in
    if sum / 65536 == 0 then sum else rest

-- Two rounds are enough for a u32 (Sum); the third leaves room.
abbrev pub fold_fuel : ℕ
fold_fuel = 3

unfoldable pub internet_checksum : Bytes → ℕ
internet_checksum bytes = (4294967295 - fold_carries fold_fuel (sum_words 0 bytes)) % 65536

unfoldable pub validate_icmp_checksum : Bytes → Bool
validate_icmp_checksum bytes =
    let sum : ℕ = fold_carries fold_fuel (sum_words 0 bytes) in
    if ltb (length bytes) 4 then false else (sum == 65535 || sum == 0)
