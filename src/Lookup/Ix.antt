-- ===== src/Lookup/Ix.antt =====
-- lookup/ix.rs, `PrefixTrie` and `PrefixTable`: the longest prefix of an internet exchange that an
-- address belongs to, by a trie of the bits of the prefixes. An access out of the arena is the
-- `none` of the functions that return an Option. An `IpNetwork` of the network crate is what its
-- methods `network` and `prefix` return.
mod Paths
mod Grow
mod Insert
mod Search
mod Longest
mod Table
mod Match
mod Scan
mod Cached
mod Tests
use ttl.Base.{
  ℕ, zero, suc, ◌+◌, ◌-◌, ◌*◌, ◌/◌, ◌%◌, ◌^◌, Bool, true, false, Option, none, some, List, [], ◌∷◌,
  ◌++◌, length, get_elem?, modify, ◌>>=◌, if◌then◌else◌, ltb, leb, ◌==◌, ◌||◌, ◌&&◌, not, keep, map,
}
use ttl.Base.Net.{IpAddr, v4, v6}
use ttl.Base.Texts.{Text}

pub record TrieNode : Type 0 where
  pub zero_child : Option ℕ
  pub one_child : Option ℕ
  pub info : Option ℕ

-- `TrieNode::default()`.
abbrev pub default_node : TrieNode
default_node = record { zero_child = none; one_child = none; info = none }

-- `children[bit]`: the bit 1 is true.
abbrev pub child : Bool → TrieNode → Option ℕ
child false n = n.zero_child
child true n = n.one_child

abbrev pub set_child : Bool → ℕ → TrieNode → TrieNode
set_child false c n = record n { zero_child = some c }
set_child true c n = record n { one_child = some c }

-- The arena of a trie; the index 0 is the root.
abbrev pub PrefixTrie : Type 0
PrefixTrie = List TrieNode

abbrev pub new_trie : PrefixTrie
new_trie = default_node ∷ []

-- `((bits >> (127 - i)) & 1) as usize`.
abbrev pub bit_at : ℕ → ℕ → Bool
bit_at bits i = bits / 2 ^ (127 - i) % 2 == 1

-- A step down from a node by a bit, to a new child if there is none.
abbrev pub descend : Bool → ℕ → PrefixTrie → TrieNode → ℕ × PrefixTrie
descend bit node trie n = elim (child bit n) [
  | some c ↦ (c, trie)
  | none ↦
      let c = length trie % 4294967296 in
      (c, modify node (set_child bit c) (trie ++ (default_node ∷ [])))
]

-- The loop of `insert`, from the bit `i` for `k` bits.
pub descend_bits : ℕ → ℕ → ℕ → ℕ → PrefixTrie → Option (ℕ × PrefixTrie)
descend_bits bits zero i node trie = some (node, trie)
descend_bits bits (suc k) i node trie = get_elem? trie node >>= λ n.
    let next = descend (bit_at bits i) node trie n in descend_bits bits k (i + 1) next.0 next.1

-- The first insertion of a prefix wins.
abbrev pub first_of : Option ℕ → ℕ → Option ℕ
first_of none idx = some idx
first_of (some old) idx = some old

abbrev pub set_info : ℕ → TrieNode → TrieNode
set_info idx n = record n { info = first_of n.info idx }

pub insert : ℕ → ℕ → ℕ → PrefixTrie → Option PrefixTrie
unfolding descend_bits
insert bits prefix_len info_idx trie =
    descend_bits bits prefix_len 0 0 trie >>= λ (r : ℕ × PrefixTrie).
    get_elem? r.1 r.0 >>= λ _. some (modify r.0 (set_info info_idx) r.1)

-- `if let Some(info) = node.info { best = Some(info) }`.
abbrev pub better : Option ℕ → Option ℕ → Option ℕ
better none best = best
better (some info) best = some info

-- The body of the loop of `lookup`: at a missing child the loop ends.
abbrev pub follow :
    Option ℕ → Option ℕ → PrefixTrie → (ℕ → Option ℕ → Option (Option ℕ)) → Option (Option ℕ)
follow none best trie continue = some best
follow (some c) best trie continue = get_elem? trie c >>= λ m. continue c (better m.info best)

-- The loop of `lookup`, from the bit `i` for `k` bits.
pub search_bits : ℕ → ℕ → ℕ → ℕ → Option ℕ → PrefixTrie → Option (Option ℕ)
search_bits bits zero i node best trie = some best
search_bits bits (suc k) i node best trie = get_elem? trie node >>= λ n.
    follow (child (bit_at bits i) n) best trie (λ c best'. search_bits bits k (i + 1) c best' trie)

pub lookup : ℕ → ℕ → PrefixTrie → Option (Option ℕ)
unfolding search_bits
lookup bits addr_len trie =
    get_elem? trie 0 >>= λ root. search_bits bits addr_len 0 0 root.info trie

-- The bits of an address, left-aligned in 128, and how many they are.
abbrev pub addr_bits : IpAddr → ℕ × ℕ
addr_bits (v4 a) = (a * 2 ^ 96, 32)
addr_bits (v6 a) = (a, 128)

pub record IpNetwork : Type 0 where
  pub network : IpAddr
  pub prefix : ℕ

pub record IxInfo : Type 0 where
  pub name : Text
  pub city : Option Text
  pub country : Option Text

pub record PrefixTable : Type 0 where
  pub v4_trie : PrefixTrie
  pub v6_trie : PrefixTrie
  pub infos : List IxInfo
  pub len : ℕ

abbrev pub new_table : PrefixTable
new_table = record { v4_trie = new_trie; v6_trie = new_trie; infos = []; len = 0 }

-- `match network { V4(_) => self.v4.insert(..), V6(_) => self.v6.insert(..) }`, by the family of
-- the network's address.
abbrev pub insert_by_family : IpAddr → ℕ → ℕ → PrefixTable → Option PrefixTable
insert_by_family (v4 a) prefix idx t =
    insert (addr_bits (v4 a)).0 prefix idx t.v4_trie >>= λ trie. some (record t { v4_trie = trie })
insert_by_family (v6 a) prefix idx t =
    insert (addr_bits (v6 a)).0 prefix idx t.v6_trie >>= λ trie. some (record t { v6_trie = trie })

pub insert_network : IpNetwork → IxInfo → PrefixTable → Option PrefixTable
unfolding insert
insert_network network info t =
    insert_by_family network.network network.prefix (length t.infos % 4294967296)
      (record t { infos = t.infos ++ (info ∷ []) })
    >>= λ (r : PrefixTable). some (record r { len = r.len + 1 })

abbrev pub trie_of : IpAddr → PrefixTable → PrefixTrie
trie_of (v4 a) t = t.v4_trie
trie_of (v6 a) t = t.v6_trie

-- `.map(|idx| &self.infos[idx as usize])`.
abbrev pub info_of : List IxInfo → Option ℕ → Option (Option IxInfo)
info_of infos none = some none
info_of infos (some idx) = get_elem? infos idx >>= λ info. some (some info)

pub lookup_ip : IpAddr → PrefixTable → Option (Option IxInfo)
unfolding lookup
lookup_ip ip t =
    lookup (addr_bits ip).0 (addr_bits ip).1 (trie_of ip t) >>= λ found. info_of t.infos found

-- `char::is_control`, and `sanitize_display` of lookup/mod.rs.
abbrev pub is_control : ℕ → Bool
is_control c = ltb c 32 || (leb 127 c && ltb c 160)

abbrev pub sanitize_display : Text → Text
sanitize_display s = keep (λ c. not (is_control c)) s

abbrev pub map_text : (Text → Text) → Option Text → Option Text
map_text f none = none
map_text f (some s) = some (f s)

pub record PrefixCacheEntry : Type 0 where
  pub prefix : Text
  pub ix_name : Text
  pub ix_city : Option Text
  pub ix_country : Option Text

abbrev pub clean_info : PrefixCacheEntry → IxInfo
clean_info p = record {
  name = sanitize_display p.ix_name;
  city = map_text sanitize_display p.ix_city;
  country = map_text sanitize_display p.ix_country;
}

-- The loop of `populate_from_cache`: an entry whose prefix is no network is left out. The parser of
-- networks belongs to the network crate.
pub populate : (Text → Option IpNetwork) → List PrefixCacheEntry → PrefixTable → Option PrefixTable
unfolding insert_network
populate parse [] t = some t
populate parse (p ∷ ps) t = elim (parse p.prefix) [
  | none ↦ populate parse ps t
  | some network ↦ insert_network network (clean_info p) t >>= λ t'. populate parse ps t'
]

abbrev pub populate_from_cache :
    (Text → Option IpNetwork) → List PrefixCacheEntry → Option PrefixTable
populate_from_cache parse prefixes = populate parse prefixes new_table
