-- ===== src/State/Asymmetry/Hops.antt =====
-- How many hops a response has come, and how a sample is counted.
use ttl.Base.{ℕ, ◌+◌, ◌≤◌, ◌<◌, ◌≡◌, Bool, ◌⊎◌, some, arith}
use ttl.Base.Float.{Float}
use ttl.State.Asymmetry.{AsymmetryInfo, estimate_return_hops, record_response}

-- For an observed TTL from 1 to 255, the estimate is the distance to one of the three common initial
-- TTLs 64, 128 and 255, to no greater one than any of them at or above the observed TTL, and it is at
-- most 126.
pub estimate_return_hops-nearest :
    (response_ttl init : ℕ) (ipv6 : Bool)
    → response_ttl < 256
    → 0 < response_ttl
    → (init ≡ 64) ⊎ ((init ≡ 128) ⊎ (init ≡ 255))
    → response_ttl ≤ init
    → let hops = estimate_return_hops response_ttl ipv6 in
      (response_ttl + hops ≤ init)
      × ((response_ttl + hops ≡ 64) ⊎ ((response_ttl + hops ≡ 128) ⊎ (response_ttl + hops ≡ 255)))
      × (hops ≤ 126)
unfolding estimate_return_hops
estimate_return_hops-nearest t init six b p i h = ground arith

module _ (f64 : Float) where
  -- While the counters do not overflow: a sample is counted once, as asymmetric exactly if the way
  -- back and the way there differ by three hops or more; the estimate is kept; and below five samples
  -- in all the verdict does not change.
  pub record_response-counts :
      (forward response : ℕ) (ipv6 : Bool) (a : AsymmetryInfo f64)
      → a.asymmetric_samples + a.symmetric_samples + 1 < 18446744073709551616
      → let hops = estimate_return_hops response ipv6 in
        let a' = record_response f64 forward response ipv6 a in
        let far = (forward + 3 ≤ hops) ⊎ (hops + 3 ≤ forward) in
        (a'.last_return_hops ≡ some hops)
        × (a'.asymmetric_samples + a'.symmetric_samples
            ≡ a.asymmetric_samples + a.symmetric_samples + 1)
        × ((far × (a'.asymmetric_samples ≡ a.asymmetric_samples + 1))
            ⊎ ((¬ far) × (a'.symmetric_samples ≡ a.symmetric_samples + 1)))
        × ((5 ≤ a'.asymmetric_samples + a'.symmetric_samples) ⊎ (a'.suspected ≡ a.suspected))
  unfolding record_response
  record_response-counts forward response ipv6 a b = ground arith
