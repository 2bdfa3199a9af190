-- ===== src/State/RateLimitInfo.antt =====
-- state/session.rs: `RateLimitInfo`, the suspicion that a hop answers at a limited rate.
use ttl.Base.{ℕ, Bool, Option}
use ttl.Base.Float.{Float}

-- The text of the reason: "{hop_loss}% loss here but {downstream}% downstream", "All flows showing
-- equal loss", or "Stable loss ratio suggests rate limiting".
pub data LimitReason {ℓ} (F : Type ℓ) : Type ℓ where
  isolated_loss : F → F → LimitReason F
  uniform_flows stable_ratio : LimitReason F

module _ (f64 : Float) where
  open f64 use {F64}

  pub record RateLimitInfo : Type 0 where
    pub suspected : Bool
    pub confidence : F64
    pub reason : Option (LimitReason F64)
    pub hop_loss : F64
    pub downstream_loss : Option F64
    pub negative_checks : ℕ
