-- ===== src/Lookup/Ix/Tests.antt =====
-- lookup/ix.rs, on examples.
use ttl.Base.{ℕ, ◌*◌, ◌≤◌, ◌≡◌, refl, Option, none, some, List, [], ◌∷◌, length, arith, ◌>>=◌}
use ttl.Base.Net.{v4, v6}
use ttl.Base.Texts.{Text}
use ttl.Lookup.Ix.{
  IpNetwork, IxInfo, PrefixTable, PrefixCacheEntry, populate, populate_from_cache, lookup_ip,
}
use ttl.Lookup.Ix.Match.{All, IsNetwork, IsLongestMatch, parsed}
use ttl.Lookup.Ix.Cached.{populate_from_cache-longest}

-- A parser of two characters: the first byte of a network of version 4, and its prefix.
abbrev parse_two : Text → Option IpNetwork
parse_two (a ∷ p ∷ []) = some (record { network = v4 (a * 16777216); prefix = p })
parse_two _ = none

abbrev entry : Text → ℕ → PrefixCacheEntry
entry prefix name = record {
  prefix = prefix;
  ix_name = name ∷ 10 ∷ [];
  ix_city = none;
  ix_country = none;
}

abbrev cached : List PrefixCacheEntry
cached =
    entry (10 ∷ 8 ∷ []) 65 ∷ entry [] 66 ∷ entry (10 ∷ 16 ∷ []) 67 ∷ entry (10 ∷ 16 ∷ []) 68 ∷ []

abbrev named : ℕ → IxInfo
named name = record { name = name ∷ []; city = none; country = none }

-- The longer prefix wins, and the first one of two that are the same.
lookup_longer :
    (populate_from_cache parse_two cached >>= λ t. lookup_ip (v4 167772161) t)
    ≡ some (some (named 67))
unfolding populate lookup_ip
lookup_longer = refl

lookup_shorter :
    (populate_from_cache parse_two cached >>= λ t. lookup_ip (v4 167837697) t)
    ≡ some (some (named 65))
unfolding populate lookup_ip
lookup_shorter = refl

lookup_nothing : (populate_from_cache parse_two cached >>= λ t. lookup_ip (v6 1) t) ≡ some none
unfolding populate lookup_ip
lookup_nothing = refl

cached-All : All (λ n. IsNetwork n.0) (parsed parse_two cached)
unfolding parsed
cached-All =
    ((omega arith, omega arith), ((omega arith, omega arith), ((omega arith, omega arith), tt)))

cached_few : length (parsed parse_two cached) ≤ 33554431
unfolding parsed
cached_few = omega arith

populate_from_cache-longest_example :
    (t : PrefixTable) × (populate_from_cache parse_two cached ≡ some t)
    × (r : Option IxInfo) × (lookup_ip (v4 167772161) t ≡ some r)
    × IsLongestMatch (parsed parse_two cached) (v4 167772161) r
populate_from_cache-longest_example =
    populate_from_cache-longest parse_two cached (v4 167772161) (omega arith) cached-All cached_few
