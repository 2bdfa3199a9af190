-- ===== src/Lookup/Ix/Cached.antt =====
-- lookup/ix.rs, `populate_from_cache` and `PrefixTable::lookup`: an address is looked up as a scan of
-- the cached prefixes for the longest one would.

use mathlib.Core.Path.{fun_ext}
use ttl.Base.{
  ◌+◌, ◌≤◌, ◌≡◌, ◌∙◌, refl, sym, ap, subst, Option, some, List, [], ◌∷◌, ◌++◌, length, arith,
  Option-cases, inl, inr, ◌>>=◌, length-append,
}
use mathlib.Core.List.{append-nil, append_assoc}
use ttl.Base.Net.{IpAddr, v4, v6, is_ipv6}
use ttl.Base.Texts.{Text}
use ttl.Lookup.Ix.{
  IpNetwork, IxInfo, PrefixTable, PrefixCacheEntry, addr_bits, trie_of, new_table, clean_info,
  populate, populate_from_cache, lookup_ip, info_of,
}
use ttl.Lookup.Ix.Paths.{info_at}
use ttl.Lookup.Ix.Search.{longest, lookup-longest}
use ttl.Lookup.Ix.Longest.{longest-Outcome}
use ttl.Lookup.Ix.Table.{
  Networks, first_at, IsFilled, IsBuilt, new_table-IsBuilt, insert_network-IsBuilt,
}
use ttl.Lookup.Ix.Match.{All, IsAddress, IsNetwork, IsLongestMatch, parsed}
use ttl.Lookup.Ix.Scan.{scan}

populate-IsBuilt :
    (parse : Text → Option IpNetwork) (ps : List PrefixCacheEntry) (ns : Networks) (t : PrefixTable)
    → IsBuilt ns t
    → All (λ n. n.0.prefix ≤ 128) (parsed parse ps)
    → length ns + length (parsed parse ps) ≤ 33554431
    → (t' : PrefixTable) × (populate parse ps t ≡ some t') × IsBuilt (ns ++ parsed parse ps) t'
unfolding populate parsed
populate-IsBuilt parse [] ns t b narrow few =
    (t, refl, subst (λ m. IsBuilt m t) (sym (append-nil ns)) b)
populate-IsBuilt parse (p ∷ ps) ns t b narrow few = elim (Option-cases (parse p.prefix)) [
  | inl gone ↦
      let same : parsed parse (p ∷ ps) ≡ parsed parse ps = rw (parsed, gone) refl in
      let (t', done, b') =
        populate-IsBuilt parse ps ns t b (subst (All (λ n. n.0.prefix ≤ 128)) same narrow)
          (subst (λ m. length ns + length m ≤ 33554431) same few) in
      (t', rw (populate, gone) done, subst (λ m. IsBuilt (ns ++ m) t') (sym same) b')
  | inr (network, there) ↦
      let n : IpNetwork × IxInfo = (network, clean_info p) in
      let rest = parsed parse ps in
      let split : parsed parse (p ∷ ps) ≡ n ∷ rest = rw (parsed, there) refl in
      let narrow' = subst (All (λ n. n.0.prefix ≤ 128)) split narrow in
      let few' = subst (λ m. length ns + length m ≤ 33554431) split few in
      let (t1, done, b1) = insert_network-IsBuilt ns n.1 t b network narrow'.0 (omega arith) in
      let (t2, rest_done, b2) =
        populate-IsBuilt parse ps (ns ++ (n ∷ [])) t1 b1 narrow'.1
          (omega (arith, length-append ns (n ∷ []))) in
      (
        t2,
        rw (populate, there, done) rest_done,
        subst (λ m. IsBuilt m t2) (append_assoc ns (n ∷ []) rest ∙ ap (λ m. ns ++ m) (sym split))
            b2,
      )
]

trie-IsFilled :
    (ip : IpAddr) (ns : Networks) (t : PrefixTable)
    → IsBuilt ns t
    → IsFilled (is_ipv6 ip) ns (trie_of ip t)
trie-IsFilled (v4 a) ns t b = b.filled4
trie-IsFilled (v6 a) ns t b = b.filled6

narrow-All : (ns : Networks) → All (λ n. IsNetwork n.0) ns → All (λ n. n.0.prefix ≤ 128) ns
narrow-All [] w = tt
narrow-All (n ∷ ns) w = (narrow n.0.network w.0.1, narrow-All ns w.1)
  where
    narrow : (ip : IpAddr) → n.0.prefix ≤ (addr_bits ip).1 → n.0.prefix ≤ 128
    narrow (v4 b) h = omega arith
    narrow (v6 b) h = h

-- Whatever a list of cached prefixes holds, up to 33,554,431 networks of them: the table is made of
-- it, every lookup of an address in the table returns, with no access out of the arena, and what it
-- returns is the info of the longest of the networks that contain the address, and of the first one
-- in the list among these; nothing, when none of them contains it.
pub populate_from_cache-longest :
    (parse : Text → Option IpNetwork) (ps : List PrefixCacheEntry) (ip : IpAddr)
    → IsAddress ip
    → All (λ n. IsNetwork n.0) (parsed parse ps)
    → length (parsed parse ps) ≤ 33554431
    → (t : PrefixTable) × (populate_from_cache parse ps ≡ some t)
      × (r : Option IxInfo) × (lookup_ip ip t ≡ some r)
      × IsLongestMatch (parsed parse ps) ip r
unfolding lookup_ip
populate_from_cache-longest parse ps ip a w few =
    let ns = parsed parse ps in
    let (t, done, b) =
      populate-IsBuilt parse ps [] new_table new_table-IsBuilt (narrow-All ns w) (omega arith) in
    let filled = trie-IsFilled ip ns t b in
    let bits = (addr_bits ip).0 in
    let width = (addr_bits ip).1 in
    let found_at : longest (λ q. info_at q (trie_of ip t)) bits width
        ≡ longest (first_at (is_ipv6 ip) ns) bits width =
      ap (λ f. longest f bits width) (fun_ext filled.found) in
    let (r, infos, match) =
      scan ip a ns _ w (longest-Outcome (first_at (is_ipv6 ip) ns) bits width) in
    (
      t,
      done,
      r,
      ap (λ o. o >>= λ found. info_of t.infos found)
            (lookup-longest (trie_of ip t) filled.tree bits width ∙ ap some found_at)
          ∙ ap (λ xs. info_of xs (longest (first_at (is_ipv6 ip) ns) bits width)) b.infos
          ∙ infos,
      match,
    )
