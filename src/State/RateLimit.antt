-- ===== src/State/RateLimit.antt =====
-- state/ratelimit.rs: `analyze_rate_limiting`, which hops of a session are suspected to answer at a
-- limited rate.
pub mod Verdicts
pub mod Clearing
use mathlib.Core.Option
use ttl.Base.{
  ℕ, zero, suc, ◌+◌, ◌-◌, ◌/◌, ◌%◌, Bool, true, false, ◌&&◌, ◌||◌, not, Option, none, some, List,
  [], ◌∷◌, map, length, take, drop, keep, ltb, leb, ◌==◌, if◌then◌else◌,
}
use ttl.Base.Words.{add8, add64, saturating_inc8}
use ttl.Base.Float.{Float}
use ttl.State.Flow.{FlowPathStats, loss_of}
use ttl.State.RateLimitInfo.{RateLimitInfo, LimitReason, isolated_loss, uniform_flows, stable_ratio}
use ttl.State.Hop.{Hop, loss_pct}
use ttl.State.Session.{Session, hop, with_hop}

-- `.filter(|&&r| !r).count()`
abbrev pub losses : List Bool → ℕ
losses recent = length (keep not recent)

module _ (f64 : Float) where
  open f64 use {F64, of_nat, literal, fadd, fsub, fmul, fdiv, fabs, fsqrt, fmax, flt, fle}

  abbrev pub completed : Hop f64 → ℕ
  completed h = add64 h.received h.timeouts

  pub calculate_recent_loss : List Bool → F64
  calculate_recent_loss recent =
      if length recent == 0
      then literal 0 1
      else fmul (fdiv (of_nat (losses recent)) (of_nat (length recent))) (literal 100 1)

  -- The loss of the first of the `n` hops from `ttl` on that has answered and has enough probes.
  pub next_loss : ℕ → ℕ → Session f64 → Option F64
  next_loss zero ttl s = none
  next_loss (suc n) ttl s =
      let rest = next_loss n (ttl + 1) s in
      elim (hop f64 ttl s) [
        | none ↦ rest
        | some h ↦ if ltb 0 h.received && leb 5 (completed h) then some (loss_pct f64 h) else rest
      ]

  pub find_next_responding_hop_loss : Session f64 → ℕ → Option F64
  unfolding next_loss
  find_next_responding_hop_loss s ttl =
      let first = add8 ttl 1 in next_loss ((length s.hops % 256 + 1) - first) first s

  abbrev add_all : F64 → List F64 → F64
  add_all acc [] = acc
  add_all acc (x ∷ xs) = add_all (fadd acc x) xs

  abbrev sum : List F64 → F64
  sum xs = add_all (literal 0 1) xs

  abbrev mean : List F64 → F64
  mean xs = fdiv (sum xs) (of_nat (length xs))

  abbrev square : F64 → F64
  square x = fmul x x

  abbrev all_below : F64 → List F64 → Bool
  all_below bound [] = true
  all_below bound (x ∷ xs) = flt x bound && all_below bound xs

  pub is_uniform_flow_loss : Hop f64 → Bool
  is_uniform_flow_loss h =
      let sampled = keep (λ (e : ℕ × FlowPathStats). leb 5 e.1.sent) h.flow_paths in
      let lost = map (λ (e : ℕ × FlowPathStats). loss_of f64 e.1.received e.1.timeouts) sampled in
      let m = mean lost in
      let variance = mean (map (λ l. square (fsub l m)) lost) in
      if ltb (length h.flow_paths) 2
      then false
      else if ltb (length lost) 2
      then false
      else if all_below (literal 5 1) lost
      then false
      else flt (fsqrt variance) (literal 5 1)

  abbrev ratio : List Bool → F64
  ratio segment = fdiv (of_nat (losses segment)) (of_nat (length segment))

  pub is_stable_loss_ratio : List Bool → Bool
  is_stable_loss_ratio recent =
      let third = length recent / 3 in
      let first_loss = ratio (take third recent) in
      let second_loss = ratio (take third (drop third recent)) in
      let third_loss = ratio (drop (third + third) recent) in
      let max_diff =
        fmax (fmax (fabs (fsub first_loss second_loss)) (fabs (fsub second_loss third_loss)))
          (fabs (fsub first_loss third_loss)) in
      if ltb (length recent) 20 then false else flt max_diff (literal 10 100)

  abbrev suspect : F64 → Option (LimitReason F64) → F64 → Option F64 → Option (RateLimitInfo f64)
  suspect confidence reason hop_loss downstream_loss = some (record {
    suspected = true;
    confidence = confidence;
    reason = reason;
    hop_loss = hop_loss;
    downstream_loss = downstream_loss;
    negative_checks = 0;
  })

  -- `hop_loss > 15.0 && dl < 5.0`, where there is a loss downstream.
  abbrev isolated : F64 → Option F64 → Bool
  isolated hop_loss none = false
  isolated hop_loss (some dl) = flt (literal 15 1) hop_loss && flt dl (literal 5 1)

  abbrev isolated_reason : F64 → Option F64 → Option (LimitReason F64)
  isolated_reason hop_loss none = none
  isolated_reason hop_loss (some dl) = some (isolated_loss hop_loss dl)

  -- The heuristics on a hop, given the loss downstream of it.
  pub detect_at : Option F64 → Hop f64 → Option (RateLimitInfo f64)
  unfolding is_uniform_flow_loss is_stable_loss_ratio calculate_recent_loss
  detect_at downstream h =
      let hop_loss = loss_pct f64 h in
      if ltb (completed h) 10
      then none
      else if flt hop_loss (literal 5 1)
      then none
      else if isolated hop_loss downstream
      then suspect (literal 85 100) (isolated_reason hop_loss downstream) hop_loss downstream
      else if leb 2 (length h.flow_paths) && is_uniform_flow_loss h
      then suspect (literal 75 100) (some uniform_flows) hop_loss downstream
      else if is_stable_loss_ratio h.recent_results
          && flt (literal 10 1) (calculate_recent_loss h.recent_results)
      then suspect (literal 6 10) (some stable_ratio) hop_loss downstream
      else none

  pub detect_rate_limiting : Session f64 → ℕ → Option (RateLimitInfo f64)
  unfolding detect_at find_next_responding_hop_loss
  detect_rate_limiting s ttl = elim (hop f64 ttl s) [
    | none ↦ none
    | some h ↦ detect_at (find_next_responding_hop_loss s ttl) h
  ]

  abbrev is_high : Option F64 → Bool
  is_high none = false
  is_high (some dl) = fle (literal 10 1) dl

  -- A suspicion that the heuristics no longer support.
  pub recheck : Bool → Bool → RateLimitInfo f64 → Option (RateLimitInfo f64)
  recheck enough recovered existing =
      let checks = saturating_inc8 existing.negative_checks in
      if leb 2 checks && enough && recovered || leb 5 checks && enough
      then none
      else some (record existing { negative_checks = checks })

  abbrev recheck_limit :
      Option F64 → Hop f64 → Option (RateLimitInfo f64) → Option (RateLimitInfo f64)
  recheck_limit downstream h none = none
  recheck_limit downstream h (some existing) =
      recheck (ltb 20 (completed h)) (flt (loss_pct f64 h) (literal 5 1) || is_high downstream)
        existing

  -- What the analysis does to a hop, given what the heuristics found.
  unfoldable pub judge : Option (RateLimitInfo f64) → Option F64 → Hop f64 → Hop f64
  unfolding recheck
  judge (some new_info) downstream h = record h { rate_limit = some new_info }
  judge none downstream h = record h { rate_limit = recheck_limit downstream h h.rate_limit }

  abbrev pub Verdict : Type 0
  Verdict = ℕ × Option (RateLimitInfo f64) × Option F64

  -- The findings for the `n` times to live from `ttl` on, all on the same state.
  abbrev pub verdicts : ℕ → ℕ → Session f64 → List Verdict
  verdicts zero ttl s = []
  verdicts (suc n) ttl s =
      (ttl, detect_rate_limiting s ttl, find_next_responding_hop_loss s ttl)
      ∷ verdicts n (ttl + 1) s

  abbrev pub apply_verdicts : List Verdict → Session f64 → Session f64
  apply_verdicts [] s = s
  apply_verdicts ((ttl, info, downstream) ∷ more) s =
      apply_verdicts more (with_hop f64 ttl (judge info downstream) s)

  unfoldable pub analyze_rate_limiting : Session f64 → Session f64
  unfolding detect_rate_limiting judge
  analyze_rate_limiting s = apply_verdicts (verdicts (length s.hops % 256) 1 s) s
