-- ===== src/Lookup/Ix/Paths.antt =====
-- lookup/ix.rs, `PrefixTrie`: the node that a path of bits reaches, and how the arena grows.
use ttl.Base.{
  ℕ, ◌<◌, ◌≡◌, refl, Bool, true, false, ◌&&◌, not, Option, some, List, [], ◌∷◌, length, get_elem?,
  ◌>>=◌, arith, ◌↔◌,
}
use ttl.Lookup.Ix.{PrefixTrie, child}

-- The bits of a path, the last one first.
abbrev pub Bits : Type 0
Bits = List Bool

abbrev pub same_bit : Bool → Bool → Bool
same_bit true c = c
same_bit false c = not c

pub same_bit_iff : (b c : Bool) → (same_bit b c ≡ true) ↔ (b ≡ c)
same_bit_iff true true = ground arith
same_bit_iff true false = ground arith
same_bit_iff false true = ground arith
same_bit_iff false false = ground arith

abbrev pub same_bits : Bits → Bits → Bool
same_bits [] [] = true
same_bits (b ∷ p) (c ∷ q) = same_bit b c && same_bits p q
same_bits _ _ = false

pub same_bits_iff : (p q : Bits) → (same_bits p q ≡ true) ↔ (p ≡ q)
same_bits_iff [] [] = (λ h. refl, λ h. refl)
same_bits_iff [] (c ∷ q) = ground arith
same_bits_iff (b ∷ p) [] = ground arith
same_bits_iff (b ∷ p) (c ∷ q) = grind (arith, same_bit_iff b c, same_bits_iff p q)

unfoldable pub reach : Bits → PrefixTrie → Option ℕ
reach [] t = some 0
reach (b ∷ p) t = reach p t >>= λ i. get_elem? t i >>= λ n. child b n

-- The info at the end of a path.
unfoldable pub info_at : Bits → PrefixTrie → Option ℕ
info_at p t = reach p t >>= λ i. get_elem? t i >>= λ n. n.info

-- Every path stays in the arena, and two paths to one node are the same.
pub record IsTree (t : PrefixTrie) : Type 0 where
  pub within : (p : Bits) (i : ℕ) → reach p t ≡ some i → i < length t
  pub apart : (p q : Bits) (i : ℕ) → reach p t ≡ some i → reach q t ≡ some i → p ≡ q
