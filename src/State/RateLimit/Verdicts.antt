-- ===== src/State/RateLimit/Verdicts.antt =====
-- state/ratelimit.rs, `analyze_rate_limiting`: the findings are applied one hop after the other, and
-- each hop gets the one for its state before the analysis.
use mathlib.Core.Option
use ttl.Base.{
  ℕ, zero, suc, ◌+◌, ◌-◌, ◌%◌, ◌≤◌, ◌<◌, ◌≡◌, ◌≢◌, ◌⊎◌, refl, ap, subst, ◌∙◌, true, none, List, [],
  ◌∷◌, length, length-modify, get_elem?, modify, ◌==◌, arith, Bool-cases, inl, inr,
}
use ttl.Base.Float.{Float}
use ttl.State.Hop.{Hop}
use ttl.State.Session.{Session, hop, with_hop, has_hop}
use ttl.State.RateLimit.{
  detect_rate_limiting, find_next_responding_hop_loss, judge, verdicts, apply_verdicts,
  analyze_rate_limiting,
}

module _ {ℓ} {A : Type ℓ} where
  get_elem-modify_same :
      (i : ℕ) (f : A → A) (xs : List A)
      → get_elem? (modify i f xs) i ≡ Option.map f (get_elem? xs i)
  get_elem-modify_same i f [] = refl
  get_elem-modify_same zero f (x ∷ xs) = refl
  get_elem-modify_same (suc i) f (x ∷ xs) = get_elem-modify_same i f xs

  get_elem-modify_other :
      (i j : ℕ) (f : A → A) (xs : List A) → i ≢ j → get_elem? (modify i f xs) j ≡ get_elem? xs j
  get_elem-modify_other i j f [] n = refl
  get_elem-modify_other zero zero f (x ∷ xs) n = absurd (n refl)
  get_elem-modify_other zero (suc j) f (x ∷ xs) n = refl
  get_elem-modify_other (suc i) zero f (x ∷ xs) n = refl
  get_elem-modify_other (suc i) (suc j) f (x ∷ xs) n =
      get_elem-modify_other i j f xs (omega (arith, n))

module _ (f64 : Float) where
  hop-with_hop_same :
      (ttl : ℕ) (f : Hop f64 → Hop f64) (s : Session f64)
      → hop f64 ttl (with_hop f64 ttl f s) ≡ Option.map f (hop f64 ttl s)
  unfolding hop with_hop
  hop-with_hop_same ttl f s = elim (Bool-cases (has_hop f64 ttl s)) [
    | inl there ↦
        rw (there, length-modify (ttl - 1) f s.hops, there)
          (get_elem-modify_same (ttl - 1) f s.hops)
    | inr absent ↦ rw (absent, absent) refl
  ]

  hop-with_hop_other :
      (ttl k : ℕ) (f : Hop f64 → Hop f64) (s : Session f64)
      → ttl ≢ k
      → hop f64 k (with_hop f64 ttl f s) ≡ hop f64 k s
  unfolding hop with_hop
  hop-with_hop_other ttl k f s n = elim (Bool-cases (has_hop f64 ttl s)) [
    | inr absent ↦ rw absent refl
    | inl there ↦ elim (Bool-cases (has_hop f64 k s)) [
      | inr no_hop ↦ rw (there, length-modify (ttl - 1) f s.hops, no_hop) refl
      | inl known ↦
          rw (there, length-modify (ttl - 1) f s.hops, known)
            (get_elem-modify_other (ttl - 1) (k - 1) f s.hops (distinct there known))
    ]
  ]
    where
      distinct : has_hop f64 ttl s ≡ true → has_hop f64 k s ≡ true → (ttl - 1) ≢ (k - 1)
      distinct there known e = ground arith

  apply-outside :
      (n from k : ℕ) (s t : Session f64)
      → (k < from) ⊎ (from + n ≤ k)
      → hop f64 k (apply_verdicts f64 (verdicts f64 n from s) t) ≡ hop f64 k t
  apply-outside zero from k s t outside = refl
  apply-outside (suc n) from k s t outside =
      apply-outside n (from + 1) k s _ (ground arith)
      ∙ hop-with_hop_other from k _ t (λ e. ground arith)

  apply-here :
      (n k : ℕ) (s t : Session f64)
      → hop f64 k (apply_verdicts f64 (verdicts f64 (suc n) k s) t)
        ≡ Option.map
            (judge f64 (detect_rate_limiting f64 s k) (find_next_responding_hop_loss f64 s k))
            (hop f64 k t)
  apply-here n k s t = apply-outside n (k + 1) k s _ (inl (omega arith)) ∙ hop-with_hop_same k _ t

  apply-inside :
      (n from k : ℕ) (s t : Session f64)
      → from ≤ k
      → k < from + n
      → hop f64 k (apply_verdicts f64 (verdicts f64 n from s) t)
        ≡ Option.map
            (judge f64 (detect_rate_limiting f64 s k) (find_next_responding_hop_loss f64 s k))
            (hop f64 k t)
  apply-inside zero from k s t low high = absurd (omega arith)
  apply-inside (suc n) from k s t low high = elim (Bool-cases (from == k)) [
    | inl same ↦
        subst
          (λ ttl.
            hop f64 ttl (apply_verdicts f64 (verdicts f64 (suc n) from s) t)
            ≡ Option.map
                (judge f64 (detect_rate_limiting f64 s ttl)
                  (find_next_responding_hop_loss f64 s ttl))
                (hop f64 ttl t))
          (ground arith) (apply-here n from s t)
    | inr other ↦
        apply-inside n (from + 1) k s _ (ground arith) (omega arith)
        ∙ ap (Option.map _) (hop-with_hop_other from k _ t (λ e. ground arith))
  ]

  -- After an analysis, a hop has the finding for its state before the analysis, of it and of the
  -- loss downstream of it then, for a session of at most 255 hops. The order in which the findings
  -- are applied does not show, and no hop is missed.
  pub analyze-hop :
      (ttl : ℕ) (s : Session f64)
      → length s.hops ≤ 255
      → hop f64 ttl (analyze_rate_limiting f64 s)
        ≡ Option.map
            (judge f64 (detect_rate_limiting f64 s ttl) (find_next_responding_hop_loss f64 s ttl))
            (hop f64 ttl s)
  unfolding analyze_rate_limiting
  analyze-hop ttl s few = elim (Bool-cases (has_hop f64 ttl s)) [
    | inl there ↦ apply-inside (length s.hops % 256) 1 ttl s s (ground arith) (ground arith)
    | inr absent ↦
        let no_hop : hop f64 ttl s ≡ none = unfold hop in rw absent refl in
        apply-outside (length s.hops % 256) 1 ttl s s (ground arith) ∙ rw no_hop refl
  ]
