-- ===== src/Probe/Checksum/Verify.antt =====
-- What the checksum test accepts, and that a packet with its checksum filled in is accepted.
use ttl.Base.{ℕ, ◌+◌, ◌/◌, ◌%◌, ◌≤◌, ◌<◌, ◌≡◌, true, ◌↔◌, ◌∷◌, length, arith}
use ttl.Base.Bytes.{Bytes, AreBytes}
use ttl.Probe.Checksum.{sum_words, fold_carries, internet_checksum, validate_icmp_checksum}
use ttl.Probe.Checksum.Sum.{total, total-le, sum_words-eq-total, Folded, fold_carries-Folded}

folded :
    (bs : Bytes)
    → AreBytes bs
    → length bs ≤ 131070
    → Folded (total bs) (fold_carries 3 (sum_words 0 bs))
folded bs h n =
    rw (sum_words-eq-total bs h n) (fold_carries-Folded (total bs) (omega (arith, total-le bs h)))

-- A message of at most 131,070 bytes passes `validate_icmp_checksum` exactly if it has at least four
-- bytes and its 16-bit words, a last odd byte padded by a zero byte, sum to a multiple of 65535.
pub validate_icmp_checksum_iff :
    (bs : Bytes)
    → AreBytes bs
    → length bs ≤ 131070
    → (validate_icmp_checksum bs ≡ true) ↔ ((4 ≤ length bs) × (total bs % 65535 ≡ 0))
unfolding validate_icmp_checksum
validate_icmp_checksum_iff bs h hi = ground (arith, folded bs h hi)

pub internet_checksum-total :
    (bs : Bytes)
    → AreBytes bs
    → length bs ≤ 131070
    → (internet_checksum bs < 65536) × ((total bs + internet_checksum bs) % 65535 ≡ 0)
unfolding internet_checksum
internet_checksum-total bs h n = let f = folded bs h n in omega (arith, f.small, f.same)

-- A message whose words sum to a positive multiple of 65535 has the checksum zero.
pub internet_checksum-zero :
    (bs : Bytes)
    → AreBytes bs
    → length bs ≤ 131070
    → 0 < total bs
    → total bs % 65535 ≡ 0
    → internet_checksum bs ≡ 0
unfolding internet_checksum
internet_checksum-zero bs h n pos e =
    let f = folded bs h n in ground (arith, f.small, f.same, f.zero_right)

-- The checksum of a message whose checksum field (bytes 2 and 3) is zero, written into that field,
-- makes the message pass: for every message of at most 131,070 bytes.
pub validate-internet_checksum :
    (a b : ℕ) (rest : Bytes)
    → AreBytes (a ∷ b ∷ 0 ∷ 0 ∷ rest)
    → length rest ≤ 131066
    → let c = internet_checksum (a ∷ b ∷ 0 ∷ 0 ∷ rest) in
      validate_icmp_checksum (a ∷ b ∷ (c / 256) ∷ (c % 256) ∷ rest) ≡ true
unfolding total
validate-internet_checksum a b rest h n =
    (validate_icmp_checksum_iff _ filled (omega arith)).1 (omega arith, sums)
  where
    zeroed : Bytes
    zeroed = a ∷ b ∷ 0 ∷ 0 ∷ rest

    c : ℕ
    c = internet_checksum zeroed

    checked : (c < 65536) × ((total zeroed + c) % 65535 ≡ 0)
    checked = internet_checksum-total zeroed h (omega arith)

    filled : AreBytes (a ∷ b ∷ (c / 256) ∷ (c % 256) ∷ rest)
    filled = (h.0, (h.1.0, (omega (arith, checked.0), (omega arith, h.1.1.1.1))))

    sums : total (a ∷ b ∷ (c / 256) ∷ (c % 256) ∷ rest) % 65535 ≡ 0
    sums = omega (arith, checked.0, checked.1)
