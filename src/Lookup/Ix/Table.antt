-- ===== src/Lookup/Ix/Table.antt =====
-- lookup/ix.rs, `PrefixTable::insert`: which network each path of the tries leads to.
use ttl.Base.{
  ℕ, zero, suc, ◌+◌, ◌*◌, ◌%◌, ◌<◌, ◌≤◌, ◌≡◌, ◌∙◌, refl, sym, ap, Bool, true, false, Option, none,
  some, List, [], ◌∷◌, ◌++◌, length, get_elem?, arith, Option-cases, Bool-cases, inl, inr, ◌>>=◌,
  if◌then◌else◌, map, ◌&&◌, length-append,
}
use ttl.Base.Net.{IpAddr, v4, v6, is_ipv6}
use ttl.Lookup.Ix.{
  PrefixTrie, child, IpNetwork, IxInfo, PrefixTable, addr_bits, first_of, insert, insert_network,
  new_table, new_trie,
}
use ttl.Lookup.Ix.Paths.{Bits, same_bit, same_bits, reach, info_at, IsTree}
use ttl.Lookup.Ix.Insert.{leading, insert-IsInserted}

abbrev pub Networks : Type 0
Networks = List (IpNetwork × IxInfo)

-- The bits of the network, as the trie stores them.
abbrev pub path_of : IpNetwork → Bits
path_of net = leading (addr_bits net.network).0 net.prefix

-- The network is of the family and has these bits.
abbrev pub is_at : Bool → IpNetwork → Bits → Bool
is_at ipv6 net q = same_bit (is_ipv6 net.network) ipv6 && same_bits q (path_of net)

abbrev pub next_index : Option ℕ → Option ℕ
next_index none = none
next_index (some i) = some (suc i)

-- The index of the first network with these bits.
unfoldable pub first_at : Bool → Networks → Bits → Option ℕ
first_at ipv6 [] q = none
first_at ipv6 (n ∷ ns) q = if is_at ipv6 n.0 q then some 0 else next_index (first_at ipv6 ns q)

next-if :
    (b : Bool) (o : Option ℕ) (n : ℕ)
    → next_index (if b then first_of o n else o)
      ≡ (if b then first_of (next_index o) (suc n) else next_index o)
next-if true none n = refl
next-if true (some i) n = refl
next-if false o n = refl

kept : (b : Bool) (n : ℕ) → some 0 ≡ (if b then first_of (some 0) n else some 0)
kept true n = refl
kept false n = refl

first_at-append :
    (ipv6 : Bool) (ns : Networks) (n : IpNetwork × IxInfo) (q : Bits)
    → first_at ipv6 (ns ++ (n ∷ [])) q
      ≡ (if is_at ipv6 n.0 q then first_of (first_at ipv6 ns q) (length ns) else first_at ipv6 ns q)
unfolding first_at
first_at-append ipv6 [] n q = refl
first_at-append ipv6 (m ∷ ns) n q = elim (Bool-cases (is_at ipv6 m.0 q)) [
  | inl here ↦ rw here (kept (is_at ipv6 n.0 q) (suc (length ns)))
  | inr other ↦
      rw (other, first_at-append ipv6 ns n q)
        (next-if (is_at ipv6 n.0 q) (first_at ipv6 ns q) (length ns))
]

-- What the trie of a family holds after the networks were inserted in their order.
pub record IsFilled (ipv6 : Bool) (ns : Networks) (trie : PrefixTrie) : Type 0 where
  pub tree : IsTree trie
  pub found : (q : Bits) → info_at q trie ≡ first_at ipv6 ns q
  pub size : length trie ≤ 1 + length ns * 128

-- The table after the networks were inserted in their order.
pub record IsBuilt (ns : Networks) (t : PrefixTable) : Type 0 where
  pub infos : t.infos ≡ map (λ n. n.1) ns
  pub filled4 : IsFilled false ns t.v4_trie
  pub filled6 : IsFilled true ns t.v6_trie
  pub count : t.len ≡ length ns

dead_end : (b : Bool) (j : ℕ) → (get_elem? new_trie j >>= λ n. child b n) ≡ none
dead_end true zero = refl
dead_end false zero = refl
dead_end b (suc j) = refl

only_root : (b : Bool) (p : Bits) → reach (b ∷ p) new_trie ≡ none
unfolding reach
only_root b p = elim (Option-cases (reach p new_trie)) [
  | inl gone ↦ rw gone refl
  | inr (j, there) ↦ rw there (dead_end b j)
]

new_trie-IsFilled : (ipv6 : Bool) → IsFilled ipv6 [] new_trie
unfolding info_at first_at reach
new_trie-IsFilled ipv6 = record {
  tree = record { within = within; apart = apart };
  found = found;
  size = omega arith;
}
  where
    within : (p : Bits) (i : ℕ) → reach p new_trie ≡ some i → i < 1
    within [] i there = ground arith
    within (b ∷ p) i there = let gone : reach (b ∷ p) new_trie ≡ none = only_root b p in absurd cc

    apart : (p q : Bits) (i : ℕ) → reach p new_trie ≡ some i → reach q new_trie ≡ some i → p ≡ q
    apart [] [] i at_p at_q = refl
    apart (b ∷ p) q i at_p at_q =
        let gone : reach (b ∷ p) new_trie ≡ none = only_root b p in absurd cc
    apart p (b ∷ q) i at_p at_q =
        let gone : reach (b ∷ q) new_trie ≡ none = only_root b q in absurd cc

    found : (q : Bits) → info_at q new_trie ≡ first_at ipv6 [] q
    found [] = refl
    found (b ∷ q) = let gone : reach (b ∷ q) new_trie ≡ none = only_root b q in rw gone refl

pub new_table-IsBuilt : IsBuilt [] new_table
new_table-IsBuilt = record {
  infos = refl;
  filled4 = new_trie-IsFilled false;
  filled6 = new_trie-IsFilled true;
  count = refl;
}

map-append {ℓ κ} :
    {A : Type ℓ} {B : Type κ} (f : A → B) (xs ys : List A) → map f (xs ++ ys) ≡ map f xs ++ map f ys
map-append f [] ys = refl
map-append f (x ∷ xs) ys = ap (◌∷◌ (f x)) (map-append f xs ys)

module _ (ns : Networks) (net : IpNetwork) (info : IxInfo) where
  abbrev more : Networks
  more = ns ++ ((net, info) ∷ [])

  -- The trie of the other family stays.
  kept-IsFilled :
      (ipv6 : Bool) (trie : PrefixTrie)
      → same_bit (is_ipv6 net.network) ipv6 ≡ false
      → IsFilled ipv6 ns trie
      → IsFilled ipv6 more trie
  kept-IsFilled ipv6 trie other w = record {
    tree = w.tree;
    found = λ q. w.found q ∙ sym (first_at-append ipv6 ns (net, info) q ∙ rw other refl);
    size = omega (arith, w.size, length-append ns ((net, info) ∷ []));
  }

  insert-IsFilled :
      (ipv6 : Bool) (trie : PrefixTrie)
      → same_bit (is_ipv6 net.network) ipv6 ≡ true
      → IsFilled ipv6 ns trie
      → net.prefix ≤ 128
      → length ns < 33554431
      → (trie' : PrefixTrie) × (insert (addr_bits net.network).0 net.prefix (length ns) trie
          ≡ some trie')
        × IsFilled ipv6 more trie'
  insert-IsFilled ipv6 trie same w narrow few =
      let bits = (addr_bits net.network).0 in
      let (trie', done, e) =
        insert-IsInserted bits net.prefix (length ns) trie w.tree (omega (arith, w.size)) in
      (
        trie',
        done,
        record {
          tree = e.tree;
          found = λ q.
              e.infos q
              ∙ ap (λ o. if same_bits q (path_of net) then first_of o (length ns) else o)
                  (w.found q)
              ∙ sym (first_at-append ipv6 ns (net, info) q ∙ rw same refl);
          size = omega (arith, e.size, w.size, length-append ns ((net, info) ∷ []));
        },
      )

length-map {ℓ κ} :
    {A : Type ℓ} {B : Type κ} (f : A → B) (xs : List A) → length (map f xs) ≡ length xs
length-map f [] = refl
length-map f (x ∷ xs) = ap suc (length-map f xs)

module _ (ns : Networks) (info : IxInfo) (t : PrefixTable) (b : IsBuilt ns t) where
  -- The index of the new info, which fits in 32 bits.
  index : length ns < 33554431 → length t.infos % 4294967296 ≡ length ns
  index few = let e = ap length b.infos ∙ length-map (λ n. n.1) ns in omega (arith, e)

  infos_with :
      (net : IpNetwork) → t.infos ++ (info ∷ []) ≡ map (λ n. n.1) (ns ++ ((net, info) ∷ []))
  infos_with net =
      ap (λ xs. xs ++ (info ∷ [])) b.infos ∙ sym (map-append (λ n. n.1) ns ((net, info) ∷ []))

  count_with : (net : IpNetwork) → t.len + 1 ≡ length (ns ++ ((net, info) ∷ []))
  count_with net = omega (arith, b.count, length-append ns ((net, info) ∷ []))

  by_family :
      (ip : IpAddr) (prefix : ℕ)
      → prefix ≤ 128
      → length ns < 33554431
      → let net : IpNetwork = record { network = ip; prefix = prefix } in
        (t' : PrefixTable) × (insert_network net info t ≡ some t')
        × IsBuilt (ns ++ ((net, info) ∷ [])) t'
  unfolding insert_network
  by_family (v4 a) prefix narrow few =
      let net : IpNetwork = record { network = v4 a; prefix = prefix } in
      let (trie, done, filled) =
        insert-IsFilled ns net info false t.v4_trie refl b.filled4 narrow few in
      (
        _,
        rw (index few, done) refl,
        record {
          infos = infos_with net;
          filled4 = filled;
          filled6 = kept-IsFilled ns net info true t.v6_trie refl b.filled6;
          count = count_with net;
        },
      )
  by_family (v6 a) prefix narrow few =
      let net : IpNetwork = record { network = v6 a; prefix = prefix } in
      let (trie, done, filled) =
        insert-IsFilled ns net info true t.v6_trie refl b.filled6 narrow few in
      (
        _,
        rw (index few, done) refl,
        record {
          infos = infos_with net;
          filled4 = kept-IsFilled ns net info false t.v4_trie refl b.filled4;
          filled6 = filled;
          count = count_with net;
        },
      )

  pub insert_network-IsBuilt :
      (net : IpNetwork)
      → net.prefix ≤ 128
      → length ns < 33554431
      → (t' : PrefixTable) × (insert_network net info t ≡ some t')
        × IsBuilt (ns ++ ((net, info) ∷ [])) t'
  insert_network-IsBuilt net = by_family net.network net.prefix
