-- ===== src/Probe/Checksum/Sum.antt =====
-- The sums: no overflow on packets of up to 131,072 bytes, and what folding keeps.
use ttl.Base.{ℕ, ◌+◌, ◌*◌, ◌%◌, ◌≤◌, ◌<◌, ◌≡◌, ◌∙◌, [], ◌∷◌, length, arith}
use ttl.Base.Bytes.{Bytes, AreBytes, be16}
use ttl.Probe.Checksum.{sum_words, fold_carries}

-- The sum of the words as a plain number.
unfoldable pub total : Bytes → ℕ
total [] = 0
total (a ∷ []) = a * 256
total (a ∷ b ∷ rest) = be16 a b + total rest

pub total-le : (bs : Bytes) → AreBytes bs → 2 * total bs ≤ 65535 * (length bs + 1)
unfolding total
total-le [] h = omega arith
total-le (a ∷ []) h = omega arith
total-le (a ∷ b ∷ rest) (ha, (hb, h)) = omega (arith, total-le rest h)

-- As long as the total fits into 32 bits, no addition wraps.
sum_words-total :
    (sum : ℕ) (bs : Bytes) → sum + total bs < 4294967296 → sum_words sum bs ≡ sum + total bs
unfolding sum_words total
sum_words-total sum [] h = omega arith
sum_words-total sum (a ∷ []) h = omega arith
sum_words-total sum (a ∷ b ∷ rest) h =
    let e : (sum + be16 a b) % 4294967296 ≡ sum + be16 a b = omega arith in
    rw e (sum_words-total (sum + be16 a b) rest (omega arith) ∙ omega arith)

pub sum_words-eq-total : (bs : Bytes) → AreBytes bs → length bs ≤ 131070 → sum_words 0 bs ≡ total bs
sum_words-eq-total bs h n = sum_words-total 0 bs (omega (arith, total-le bs h)) ∙ omega arith

-- The folded sum has 16 bits, so the loop has ended by its test; it is the sum modulo 65535, and it
-- is zero only for the sum zero.
pub record Folded (sum r : ℕ) : Type 0 where
  pub small : r < 65536
  pub same : r % 65535 ≡ sum % 65535
  pub zero_left : sum ≡ 0 → r ≡ 0
  pub zero_right : r ≡ 0 → sum ≡ 0

pub fold_carries-Folded : (sum : ℕ) → sum < 4294967296 → Folded sum (fold_carries 3 sum)
unfolding fold_carries
fold_carries-Folded sum h = ground arith
