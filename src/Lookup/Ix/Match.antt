-- ===== src/Lookup/Ix/Match.antt =====
-- lookup/ix.rs, `populate_from_cache` and `PrefixTable::lookup`: an address is looked up as a scan of
-- the cached prefixes for the longest one would.

use native.Mathlib.Nat.{pow-succ', mul-div-mul_right}
use ttl.Base.{
  ℕ, zero, suc, ◌+◌, ◌-◌, ◌*◌, ◌/◌, ◌^◌, ◌<◌, ◌≤◌, ◌≡◌, ◌∙◌, refl, sym, ap, Bool, true, false,
  Option, none, some, List, [], ◌∷◌, ◌++◌, length, arith, Bool-cases, inl, inr, ◌↔◌,
}
use ttl.Base.Net.{IpAddr, v4, v6, is_ipv6}
use ttl.Base.Texts.{Text}
use ttl.Lookup.Ix.{IpNetwork, IxInfo, PrefixCacheEntry, addr_bits, clean_info}
use ttl.Lookup.Ix.Paths.{Bits, same_bits, same_bits_iff}
use ttl.Lookup.Ix.Insert.{leading}
use ttl.Lookup.Ix.Longest.{leading_iff}
use ttl.Lookup.Ix.Table.{Networks, is_at, next_index, first_at}

abbrev pub All {ℓ} : {A : Type ℓ} → (A → Type 0) → List A → Type 0
All P [] = Unit
All P (x ∷ xs) = P x × All P xs

-- An address of its width, in bits.
abbrev pub IsAddress : IpAddr → Type 0
IsAddress (v4 a) = a < 2 ^ 32
IsAddress (v6 a) = a < 2 ^ 128

-- A network of the network crate.
abbrev pub IsNetwork : IpNetwork → Type 0
IsNetwork net = IsAddress net.network × (net.prefix ≤ (addr_bits net.network).1)

-- The network contains the address: they agree but for the bits after the prefix.
abbrev pub Contains : IpAddr → ℕ → IpAddr → Type 0
Contains (v4 n) prefix (v4 a) = n / 2 ^ (32 - prefix) ≡ a / 2 ^ (32 - prefix)
Contains (v6 n) prefix (v6 a) = n / 2 ^ (128 - prefix) ≡ a / 2 ^ (128 - prefix)
Contains _ prefix _ = ⊥

abbrev pub Covers : IpNetwork → IpAddr → Type 0
Covers net ip = Contains net.network net.prefix ip

-- The info of the longest of the networks that contain the address, the first one of these.
pub data IsLongestMatch (ns : Networks) (ip : IpAddr) : Option IxInfo → Type 0 where
  unmatched : All (λ n. ¬ Covers n.0 ip) ns → IsLongestMatch ns ip none
  matched :
      (before after : Networks) (net : IpNetwork) (info : IxInfo)
      → ns ≡ before ++ ((net, info) ∷ after)
      → Covers net ip
      → All (λ n. Covers n.0 ip → n.0.prefix < net.prefix) before
      → All (λ n. Covers n.0 ip → n.0.prefix ≤ net.prefix) after
      → IsLongestMatch ns ip (some info)

-- The networks that the cached prefixes name, with their infos.
unfoldable pub parsed : (Text → Option IpNetwork) → List PrefixCacheEntry → Networks
parsed parse [] = []
parsed parse (p ∷ ps) = elim (parse p.prefix) [
  | none ↦ parsed parse ps
  | some network ↦ (network, clean_info p) ∷ parsed parse ps
]

pow-add_96 : (m : ℕ) → 2 ^ (m + 96) ≡ 2 ^ m * 2 ^ 96
pow-add_96 zero = refl
pow-add_96 (suc m) =
    let e : suc m + 96 ≡ suc (m + 96) = omega arith in
    let longer = pow-succ' 2 (m + 96) in
    let shorter = pow-succ' 2 m in
    ap (λ k. 2 ^ k) e ∙ (omega (arith, longer, shorter, pow-add_96 m))

shifted : (n p : ℕ) → p ≤ 32 → n * 2 ^ 96 / 2 ^ (128 - p) ≡ n / 2 ^ (32 - p)
shifted n p h =
    let apart : 128 - p ≡ 32 - p + 96 = omega arith in
    ap (λ k. n * 2 ^ 96 / k) (ap (λ m. 2 ^ m) apart ∙ pow-add_96 (32 - p))
    ∙ mul-div-mul_right {m = 2 ^ 96} n (2 ^ (32 - p)) (omega arith)

led_iff :
    (x y p : ℕ)
    → p ≤ 128
    → x < 2 ^ 128
    → y < 2 ^ 128
    → (same_bits (leading y p) (leading x p) ≡ true) ↔ (x / 2 ^ (128 - p) ≡ y / 2 ^ (128 - p))
led_iff x y p h hx hy =
    let same = same_bits_iff (leading y p) (leading x p) in
    let both = leading_iff x y p h hx hy in
    (λ e. both.0 (sym (same.0 e)), λ e. same.1 (sym (both.1 e)))

-- A network contains an address when its bits lead the address's.
pub covers_iff :
    (n : IpAddr) (p : ℕ) (ip : IpAddr)
    → IsAddress n
    → p ≤ (addr_bits n).1
    → IsAddress ip
    → Contains n p ip ↔ (
        (is_at (is_ipv6 ip) (record { network = n; prefix = p }) (leading (addr_bits ip).0 p)
          ≡ true)
        × (p ≤ (addr_bits ip).1))
covers_iff (v4 n) p (v4 a) hn hp ha =
    let e = led_iff (n * 2 ^ 96) (a * 2 ^ 96) p (omega arith) (omega arith) (omega arith) in
    let left = shifted n p hp in
    let right = shifted a p hp in
    (λ c. (e.1 (left ∙ c ∙ sym right), hp), λ m. sym left ∙ e.0 m.0 ∙ right)
covers_iff (v6 n) p (v6 a) hn hp ha =
    let e = led_iff n a p hp hn ha in (λ c. (e.1 c, hp), λ m. e.0 m.0)
covers_iff (v4 n) p (v6 a) hn hp ha = (λ c. absurd c, λ m. absurd (ground arith))
covers_iff (v6 n) p (v4 a) hn hp ha = (λ c. absurd c, λ m. absurd (ground arith))

next-none : (o : Option ℕ) → next_index o ≡ none → o ≡ none
next-none none e = refl
next-none (some i) e = absurd cc

next-some : (o : Option ℕ) (i : ℕ) → next_index o ≡ some i → (j : ℕ) × (o ≡ some j) × (i ≡ suc j)
next-some none i e = absurd cc
next-some (some j) i e = (j, refl, cc)

not_none : (i : ℕ) → some i ≡ none → ⊥
not_none i e = absurd cc

pub All-apart :
    (ipv6 : Bool) (ns : Networks) (q : Bits)
    → first_at ipv6 ns q ≡ none
    → All (λ n. is_at ipv6 n.0 q ≡ false) ns
unfolding first_at
All-apart ipv6 [] q gone = tt
All-apart ipv6 (n ∷ ns) q gone = elim (Bool-cases (is_at ipv6 n.0 q)) [
  | inl here ↦ absurd (not_none 0 (sym (rw here refl) ∙ gone))
  | inr other ↦
      (other, All-apart ipv6 ns q (next-none (first_at ipv6 ns q) (sym (rw other refl) ∙ gone)))
]

-- The first of the networks with these bits.
pub data IsFirst (ipv6 : Bool) (q : Bits) (ns : Networks) (i : ℕ) : Type 0 where
  first :
      (before after : Networks) (n : IpNetwork × IxInfo)
      → ns ≡ before ++ (n ∷ after)
      → length before ≡ i
      → is_at ipv6 n.0 q ≡ true
      → All (λ m. is_at ipv6 m.0 q ≡ false) before
      → IsFirst ipv6 q ns i

pub first_at-IsFirst :
    (ipv6 : Bool) (ns : Networks) (q : Bits) (i : ℕ)
    → first_at ipv6 ns q ≡ some i
    → IsFirst ipv6 q ns i
unfolding first_at
first_at-IsFirst ipv6 [] q i there = absurd cc
first_at-IsFirst ipv6 (n ∷ ns) q i there = elim (Bool-cases (is_at ipv6 n.0 q)) [
  | inl here ↦
      let e : some 0 ≡ some i = sym (rw here refl) ∙ there in first [] ns n refl (cc) here tt
  | inr other ↦
      let (j, at_j, e) = next-some (first_at ipv6 ns q) i (sym (rw other refl) ∙ there) in
      later n ns i j e other (first_at-IsFirst ipv6 ns q j at_j)
]
  where
    later :
        (n : IpNetwork × IxInfo) (ns : Networks) (i j : ℕ)
        → i ≡ suc j
        → is_at ipv6 n.0 q ≡ false
        → IsFirst ipv6 q ns j
        → IsFirst ipv6 q (n ∷ ns) i
    later n ns i j e other (first before after m split len here apart) =
        first (n ∷ before) after m (ap (λ xs. n ∷ xs) split) (ap suc len ∙ sym e) here
          (other, apart)
