-- ===== src/State/Asymmetry.antt =====
-- state/session.rs: `AsymmetryInfo`, the comparison of the way there and the way back.
pub mod Hops
use ttl.Base.{ℕ, ◌+◌, ◌-◌, Bool, true, false, Option, none, some, ltb, leb, if◌then◌else◌}
use ttl.Base.Words.{add64}
use ttl.Base.Float.{Float}

-- The smallest of 64, 128 and 255 that is at least the observed TTL, less that TTL; a u8 is never
-- above the last.
pub estimate_return_hops : ℕ → Bool → ℕ
estimate_return_hops response_ttl ipv6 =
    let init_ttl : ℕ =
      if leb response_ttl 64 then 64 else if leb response_ttl 128 then 128 else 255 in
    init_ttl - response_ttl

-- `(return_hops as i16 - forward_ttl as i16).abs()`
abbrev pub hop_difference : ℕ → ℕ → ℕ
hop_difference return_hops forward_ttl = (return_hops - forward_ttl) + (forward_ttl - return_hops)

module _ (f64 : Float) where
  open f64 use {F64, of_nat, literal, fadd, fsub, fmul, fdiv, flt}

  pub record AsymmetryInfo : Type 0 where
    pub asymmetric_samples : ℕ
    pub symmetric_samples : ℕ
    pub suspected : Bool
    pub confidence : F64
    pub avg_hop_difference : F64
    pub last_return_hops : Option ℕ
    pub variance : F64
    pub m2 : F64
    pub mean_diff : F64

  unfoldable pub fresh : AsymmetryInfo
  fresh = record {
    asymmetric_samples = 0;
    symmetric_samples = 0;
    suspected = false;
    confidence = literal 0 1;
    avg_hop_difference = literal 0 1;
    last_return_hops = none;
    variance = literal 0 1;
    m2 = literal 0 1;
    mean_diff = literal 0 1;
  }

  -- Welford's mean and variance, and the running average.
  pub update_moments : ℕ → AsymmetryInfo → AsymmetryInfo
  update_moments diff a =
      let total : ℕ = add64 a.asymmetric_samples a.symmetric_samples in
      let n : F64 = of_nat (add64 total 1) in
      let delta : F64 = fsub (of_nat diff) a.mean_diff in
      let mean : F64 = fadd a.mean_diff (fdiv delta n) in
      let moment : F64 = fadd a.m2 (fmul delta (fsub (of_nat diff) mean)) in
      record a {
        mean_diff = mean;
        m2 = moment;
        variance = if flt (literal 1 1) n then fdiv moment (fsub n (literal 1 1)) else literal 0 1;
        avg_hop_difference =
            fdiv (fadd (fmul a.avg_hop_difference (of_nat total)) (of_nat diff))
              (of_nat (add64 total 1));
      }

  pub classify : ℕ → AsymmetryInfo → AsymmetryInfo
  classify diff a =
      if leb 3 diff
      then record a { asymmetric_samples = add64 a.asymmetric_samples 1 }
      else record a { symmetric_samples = add64 a.symmetric_samples 1 }

  pub update_status : AsymmetryInfo → AsymmetryInfo
  update_status a =
      let total : ℕ = add64 a.asymmetric_samples a.symmetric_samples in
      let confidence : F64 = fdiv (of_nat a.asymmetric_samples) (of_nat total) in
      if leb 5 total
      then record a { confidence = confidence; suspected = flt (literal 1 2) confidence }
      else a

  unfoldable pub record_response : ℕ → ℕ → Bool → AsymmetryInfo → AsymmetryInfo
  unfolding update_moments classify update_status
  record_response forward_ttl response_ttl ipv6 a =
      let return_hops : ℕ = estimate_return_hops response_ttl ipv6 in
      let diff : ℕ = hop_difference return_hops forward_ttl in
      let counted : AsymmetryInfo = classify diff (update_moments diff a) in
      update_status (record counted { last_return_hops = some return_hops })
