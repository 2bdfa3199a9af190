-- ===== src/State/TtlManip.antt =====
-- state/session.rs: `TtlManipInfo`, the detection of middleboxes that rewrite the TTL. The rates
-- and confidences are floats, a parameter.
pub mod Hysteresis
use ttl.Base.{
  ℕ, ◌+◌, Bool, true, false, ◌&&◌, ◌||◌, Option, none, some, ltb, leb, ◌==◌, if◌then◌else◌,
}
use ttl.Base.Words.{add64, saturating_inc8}
use ttl.Base.Float.{Float}

-- The text of the reason: "TTL not decremented (transparent proxy?)", or
-- "Quoted TTL > 1 in {n} samples".
pub data Reason : Type 0 where
  not_decremented : Reason
  quoted_in : ℕ → Reason

module _ (f64 : Float) where
  open f64 use {F64, of_nat, literal, fadd, fmul, fdiv, fmin, fle}

  pub record TtlManipInfo : Type 0 where
    pub normal_samples : ℕ
    pub anomalous_samples : ℕ
    pub no_decrement_samples : ℕ
    pub suspected : Bool
    pub confidence : F64
    pub reason : Option Reason
    pub last_quoted_ttl : Option ℕ
    pub negative_checks : ℕ

  pub fresh : TtlManipInfo
  fresh = record {
    normal_samples = 0;
    anomalous_samples = 0;
    no_decrement_samples = 0;
    suspected = false;
    confidence = literal 0 1;
    reason = none;
    last_quoted_ttl = none;
    negative_checks = 0;
  }

  pub build_reason : TtlManipInfo → Reason
  build_reason t =
      if ltb 0 t.no_decrement_samples then not_decremented else quoted_in t.anomalous_samples

  -- The state behind `anomaly_rate >= ANOMALY_THRESHOLD || no_decrement_samples > 0`.
  pub suspect : F64 → TtlManipInfo → TtlManipInfo
  suspect anomaly_rate t = record t {
    suspected = true;
    confidence =
        if ltb 0 t.no_decrement_samples
        then literal 9 10
        else fadd (literal 1 2) (fmin (fmul anomaly_rate (literal 4 10)) (literal 4 10));
    reason = some (build_reason t);
  }

  pub update_detection : TtlManipInfo → TtlManipInfo
  unfolding suspect
  update_detection t =
      let total : ℕ = add64 t.normal_samples t.anomalous_samples in
      let anomaly_rate : F64 = fdiv (of_nat t.anomalous_samples) (of_nat total) in
      if leb 10 t.negative_checks
      then record t {
        suspected = false;
        confidence = literal 0 1;
        reason = none;
        negative_checks = 0;
        anomalous_samples = 0;
        no_decrement_samples = 0;
      }
      else if leb 5 total
      then (if fle (literal 3 10) anomaly_rate || ltb 0 t.no_decrement_samples
          then suspect anomaly_rate t
          else t)
      else t

  -- The count of the sample as anomalous or normal.
  pub count_sample : ℕ → TtlManipInfo → TtlManipInfo
  count_sample quoted_ttl t =
      if ltb 1 quoted_ttl
      then record t { anomalous_samples = add64 t.anomalous_samples 1; negative_checks = 0 }
      else record t {
        normal_samples = add64 t.normal_samples 1;
        negative_checks =
            if t.suspected then saturating_inc8 t.negative_checks else t.negative_checks;
      }

  -- The special case of a TTL that was not decremented.
  pub count_no_decrement : ℕ → ℕ → TtlManipInfo → TtlManipInfo
  count_no_decrement sent_ttl quoted_ttl t =
      if (quoted_ttl == sent_ttl) && ltb 1 sent_ttl
      then record t { no_decrement_samples = add64 t.no_decrement_samples 1; negative_checks = 0 }
      else t

  pub record_sample : ℕ → ℕ → TtlManipInfo → TtlManipInfo
  unfolding count_sample count_no_decrement update_detection
  record_sample sent_ttl quoted_ttl t = update_detection (
      count_no_decrement sent_ttl quoted_ttl
        (count_sample quoted_ttl (record t { last_quoted_ttl = some quoted_ttl })))
