-- ===== src/Lookup/Ix/Scan.antt =====
-- lookup/ix.rs: what the longest leading part of an address leads to is the longest match.
use native.Mathlib.Decide.{dec_le, ℕ_discrete}
use ttl.Base.{
  ℕ, ◌<◌, ◌≤◌, ◌≡◌, ◌∙◌, refl, sym, ap, subst, Bool, true, false, Option, none, some, List, [], ◌∷◌,
  ◌++◌, length, get_elem?, arith, map,
}
use ttl.Base.Net.{IpAddr, is_ipv6}
use ttl.Lookup.Ix.{IpNetwork, IxInfo, addr_bits, info_of}
use ttl.Lookup.Ix.Paths.{same_bits, same_bits_iff}
use ttl.Lookup.Ix.Insert.{leading}
use ttl.Lookup.Ix.Longest.{Outcome, nowhere, at, length-leading}
use ttl.Lookup.Ix.Table.{Networks, path_of, is_at, first_at}
use ttl.Lookup.Ix.Match.{
  All, IsAddress, IsNetwork, Covers, IsLongestMatch, unmatched, matched, covers_iff, All-apart,
  IsFirst, first, first_at-IsFirst,
}

-- No network whose bits are longer than `m` of the address's contains it.
at_most :
    (ip : IpAddr) (ns : Networks) (m : ℕ)
    → IsAddress ip
    → All (λ n. IsNetwork n.0) ns
    → ((k : ℕ)
        → m < k
        → k ≤ (addr_bits ip).1
        → All (λ n. is_at (is_ipv6 ip) n.0 (leading (addr_bits ip).0 k) ≡ false) ns)
    → All (λ n. Covers n.0 ip → n.0.prefix ≤ m) ns
at_most ip [] m a w h = tt
at_most ip (n ∷ ns) m a w h = (
  λ c. elim (dec_le n.0.prefix m) [
    | yes within ↦ within
    | no beyond ↦
        let e = (covers_iff n.0.network n.0.prefix ip w.0.0 w.0.1 a).0 c in
        let apart = (h n.0.prefix (omega arith) e.1).0 in absurd (ground (arith, e.0, apart))
  ],
  at_most ip ns m a w.1 (λ k above below. (h k above below).1),
)

none-Covers :
    (ip : IpAddr) (ns : Networks)
    → IsAddress ip
    → All (λ n. IsNetwork n.0) ns
    → ((k : ℕ)
        → k ≤ (addr_bits ip).1
        → All (λ n. is_at (is_ipv6 ip) n.0 (leading (addr_bits ip).0 k) ≡ false) ns)
    → All (λ n. ¬ Covers n.0 ip) ns
none-Covers ip [] a w h = tt
none-Covers ip (n ∷ ns) a w h = (
  λ c.
      let e = (covers_iff n.0.network n.0.prefix ip w.0.0 w.0.1 a).0 c in
      let apart = (h n.0.prefix e.1).0 in absurd (ground (arith, e.0, apart)),
  none-Covers ip ns a w.1 (λ k below. (h k below).1),
)

-- Those that do not have the `m` bits are shorter.
shorter :
    (ip : IpAddr) (ns : Networks) (m : ℕ)
    → IsAddress ip
    → All (λ n. IsNetwork n.0) ns
    → All (λ n. is_at (is_ipv6 ip) n.0 (leading (addr_bits ip).0 m) ≡ false) ns
    → All (λ n. Covers n.0 ip → n.0.prefix ≤ m) ns
    → All (λ n. Covers n.0 ip → n.0.prefix < m) ns
shorter ip [] m a w apart h = tt
shorter ip (n ∷ ns) m a w apart h = (
  λ c. elim (ℕ_discrete n.0.prefix m) [
    | yes same ↦
        let e = (covers_iff n.0.network n.0.prefix ip w.0.0 w.0.1 a).0 c in
        let there =
          ap (λ k. is_at (is_ipv6 ip) n.0 (leading (addr_bits ip).0 k)) (sym same) ∙ e.0 in
        absurd (ground (arith, there, apart.0))
    | no ne ↦ omega (arith, h.0 c)
  ],
  shorter ip ns m a w.1 apart.1 h.1,
)

All-append {ℓ} :
    {A : Type ℓ} (P : A → Type 0) (xs ys : List A) → All P (xs ++ ys) → All P xs × All P ys
All-append P [] ys h = (tt, h)
All-append P (x ∷ xs) ys h = let r = All-append P xs ys h.1 in ((h.0, r.0), r.1)

-- A network at the first `m` bits of the address has a prefix of `m` bits.
prefix_of :
    (ipv6 : Bool) (net : IpNetwork) (bits m : ℕ)
    → is_at ipv6 net (leading bits m) ≡ true
    → m ≡ net.prefix
prefix_of ipv6 net bits m h =
    let same : same_bits (leading bits m) (path_of net) ≡ true = ground (arith, h) in
    sym (length-leading bits m)
    ∙ ap length ((same_bits_iff (leading bits m) (path_of net)).0 same)
    ∙ length-leading (addr_bits net.network).0 net.prefix

get-map_split :
    (before after : Networks) (n : IpNetwork × IxInfo)
    → get_elem? (map (λ m. m.1) (before ++ (n ∷ after))) (length before) ≡ some n.1
get-map_split [] after n = refl
get-map_split (m ∷ before) after n = get-map_split before after n

module _ (ip : IpAddr) (a : IsAddress ip) where
  -- The first of the longest networks is found, with its info.
  found :
      (ns : Networks) (i m : ℕ)
      → All (λ n. IsNetwork n.0) ns
      → m ≤ (addr_bits ip).1
      → All (λ n. Covers n.0 ip → n.0.prefix ≤ m) ns
      → IsFirst (is_ipv6 ip) (leading (addr_bits ip).0 m) ns i
      → (r : Option IxInfo) × (info_of (map (λ n. n.1) ns) (some i) ≡ some r)
        × IsLongestMatch ns ip r
  found ns i m w fits within (first before after n split len here apart) =
      let m_eq = prefix_of (is_ipv6 ip) n.0 (addr_bits ip).0 m here in
      let w' = All-append _ before (n ∷ after) (subst (All (λ k. IsNetwork k.0)) split w) in
      let within' =
        All-append _ before (n ∷ after)
          (subst (All (λ k. Covers k.0 ip → k.0.prefix ≤ m)) split within) in
      let before_shorter = shorter ip before m a w'.0 apart within'.0 in
      let net = n.0 in
      let covers = (covers_iff net.network net.prefix ip w'.1.0.0 w'.1.0.1 a).1 (
        ap (λ k. is_at (is_ipv6 ip) net (leading (addr_bits ip).0 k)) (sym m_eq) ∙ here,
        subst (λ k. k ≤ (addr_bits ip).1) m_eq fits,
      ) in
      let there : get_elem? (map (λ k. k.1) ns) i ≡ some n.1 =
        ap (get_elem? (map (λ k. k.1) ns)) (sym len)
        ∙ ap (λ ms. get_elem? (map (λ k. k.1) ms) (length before)) split
        ∙ get-map_split before after n in
      (
        some n.1,
        rw there refl,
        matched before after net n.1 split covers
            (subst (λ k. All (λ j. Covers j.0 ip → j.0.prefix < k) before) m_eq before_shorter)
            (subst (λ k. All (λ j. Covers j.0 ip → j.0.prefix ≤ k) after) m_eq within'.1.1),
      )

  pub scan :
      (ns : Networks) (o : Option ℕ)
      → All (λ n. IsNetwork n.0) ns
      → Outcome (first_at (is_ipv6 ip) ns) (addr_bits ip).0 (addr_bits ip).1 o
      → (r : Option IxInfo) × (info_of (map (λ n. n.1) ns) o ≡ some r) × IsLongestMatch ns ip r
  scan ns _ w (nowhere all) = (
    none,
    refl,
    unmatched (
        none-Covers ip ns a w
          (λ k h. All-apart (is_ipv6 ip) ns (leading (addr_bits ip).0 k) (all k h))),
  )
  scan ns _ w (at i m h there longer) =
      found ns i m w h
        (at_most ip ns m a w (λ k above below.
          All-apart (is_ipv6 ip) ns (leading (addr_bits ip).0 k) (longer k above below)))
        (first_at-IsFirst (is_ipv6 ip) ns (leading (addr_bits ip).0 m) i there)
