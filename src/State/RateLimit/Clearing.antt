-- ===== src/State/RateLimit/Clearing.antt =====
-- state/ratelimit.rs: a suspicion ends some analyses after the heuristics stop to support it.
use ttl.Base.{
  ◌+◌, ◌≤◌, ◌<◌, ◌≡◌, ◌⊎◌, inl, inr, refl, Bool, true, ◌||◌, Option, none, some, List, [], ◌∷◌,
  length, arith, ltb,
}
use ttl.Base.Float.{Float}
use ttl.State.RateLimitInfo.{RateLimitInfo}
use ttl.State.Hop.{Hop, loss_pct}
use ttl.State.RateLimit.{judge, recheck, completed, is_high}

module _ (f64 : Float) where
  open f64 use {F64, flt, literal}

  -- What one analysis goes by at a hop, when the heuristics do not suspect it: the hop as the probes
  -- between the analyses left it, but for the suspicion, and the loss downstream.
  pub record Unsupported : Type 0 where
    pub seen : Hop f64
    pub downstream : Option F64

  -- The suspicion after one analysis each.
  pub rechecks : List Unsupported → Option (RateLimitInfo f64) → Option (RateLimitInfo f64)
  rechecks [] limit = limit
  rechecks (u ∷ us) limit =
      rechecks us (judge f64 none u.downstream (record u.seen { rate_limit = limit })).rate_limit

  -- More than 20 probes are completed at each.
  unfoldable pub AllEnough : List Unsupported → Type 0
  AllEnough [] = Unit
  AllEnough (u ∷ us) = (20 < completed f64 u.seen) × AllEnough us

  rechecks-none : (us : List Unsupported) → rechecks us none ≡ none
  unfolding rechecks judge
  rechecks-none [] = refl
  rechecks-none (u ∷ us) = rechecks-none us

  recheck-cases :
      (recovered : Bool) (info : RateLimitInfo f64)
      → (recheck f64 true recovered info ≡ none)
        ⊎ ((recheck f64 true recovered info
              ≡ some (record info { negative_checks = info.negative_checks + 1 }))
            × (info.negative_checks + 1 < 5))
  unfolding recheck
  recheck-cases recovered info = ground arith

  rechecks-clear :
      (us : List Unsupported) (info : RateLimitInfo f64)
      → AllEnough us
      → 1 ≤ length us
      → 5 ≤ info.negative_checks + length us
      → rechecks us (some info) ≡ none
  unfolding rechecks judge AllEnough
  rechecks-clear [] info enough some_left long = absurd (omega arith)
  rechecks-clear (u ∷ us) info enough some_left long =
      let recovered =
        flt (loss_pct f64 (record u.seen { rate_limit = some info })) (literal 5 1)
        || is_high f64 u.downstream in
      let e : ltb 20 (completed f64 u.seen) ≡ true = ground (arith, enough.0) in
      elim (recheck-cases recovered info) [
        | inl cleared ↦ rw (e, cleared) (rechecks-none us)
        | inr (kept, few) ↦ rw (e, kept) (rechecks-clear us _ enough.1 (omega arith) (omega arith))
      ]

  -- Five analyses in a row in which the heuristics do not suspect a hop clear its suspicion, whatever
  -- it was, whatever the losses, and whatever the probes change in between, as long as more than 20
  -- probes of the hop are completed; further ones leave it cleared.
  pub rechecks-none_after :
      (us : List Unsupported) (limit : Option (RateLimitInfo f64))
      → AllEnough us
      → 5 ≤ length us
      → rechecks us limit ≡ none
  rechecks-none_after us none enough long = rechecks-none us
  rechecks-none_after us (some info) enough long =
      rechecks-clear us info enough (omega arith) (omega arith)
