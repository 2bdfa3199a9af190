-- ===== src/State/Hop/Ecmp.antt =====
-- state/session.rs: the classification of load balancing at a hop (`ecmp_kind`, `path_count`).
use ttl.Base.{
  ℕ, ◌≤◌, ◌≡◌, ◌↔◌, max, Bool, true, false, ◌&&◌, Option, none, some, List, [], ◌∷◌, length, keep,
  ltb, leb, ◌==◌, arith, if◌then◌else◌,
}
use ttl.Base.Net.{IpAddr, ip_eq}
use ttl.Base.Float.{Float}
use ttl.Base.Assoc.{get, ip_key}
use ttl.State.Flow.{FlowPathStats}
use ttl.State.Responder.{ResponderStats}
use ttl.State.Hop.{Hop}

pub data EcmpKind : Type 0 where
  no_ecmp per_flow per_packet : EcmpKind

abbrev has_address : IpAddr → List IpAddr → Bool
has_address ip [] = false
has_address ip (first ∷ more) =
    let rest = has_address ip more in if ip_eq first ip then true else rest

abbrev with_primary : Option IpAddr → List IpAddr → List IpAddr
with_primary none set = set
with_primary (some ip) set = if has_address ip set then set else ip ∷ set

-- The set of the primary responders of the flows.
abbrev primaries : List (ℕ × FlowPathStats) → List IpAddr
primaries [] = []
primaries ((flow, fp) ∷ flows) = with_primary fp.primary_responder (primaries flows)

-- `values().copied().max().unwrap_or(0)`
abbrev largest : List (IpAddr × ℕ) → ℕ
largest [] = 0
largest ((ip, count) ∷ counts) = max count (largest counts)

module _ (f64 : Float) where
  open f64 use {F64, of_nat, literal, fadd, fdiv, flt}

  pub unique_flow_primary_count : Hop f64 → ℕ
  unique_flow_primary_count h = length (primaries h.flow_paths)

  abbrev flow_primary_ratio : FlowPathStats → Option F64
  flow_primary_ratio flow =
      if flow.received == 0
      then none
      else some (fdiv (of_nat (largest flow.responder_counts)) (of_nat flow.received))

  abbrev ratio_at : ℕ → Option (ResponderStats f64) → Option F64
  ratio_at received none = none
  ratio_at received (some s) = some (fdiv (of_nat s.received) (of_nat received))

  abbrev hop_primary_ratio : Hop f64 → Option F64
  hop_primary_ratio h =
      if h.received == 0
      then none
      else elim h.primary [ none ↦ none | some ip ↦ ratio_at h.received (get ip h.responders) ]

  abbrev add_ratio : F64 → Option F64 → F64
  add_ratio sum none = sum
  add_ratio sum (some ratio) = fadd sum ratio

  abbrev sum_ratios : F64 → List (ℕ × FlowPathStats) → F64
  sum_ratios sum [] = sum
  sum_ratios sum ((flow, fp) ∷ flows) = sum_ratios (add_ratio sum (flow_primary_ratio fp)) flows

  abbrev is_spread : Option F64 → Bool
  is_spread none = false
  is_spread (some ratio) = flt ratio (literal 70 100)

  -- The flows with enough answers to be classified.
  abbrev sampled_flows : Hop f64 → List (ℕ × FlowPathStats)
  sampled_flows h = keep (λ (e : ℕ × FlowPathStats). leb 4 e.1.received) h.flow_paths

  abbrev avg_primary_ratio : List (ℕ × FlowPathStats) → F64
  avg_primary_ratio flows = fdiv (sum_ratios (literal 0 1) flows) (of_nat (length flows))

  pub ecmp_kind : Hop f64 → EcmpKind
  unfolding unique_flow_primary_count
  ecmp_kind h =
      let unique = unique_flow_primary_count h in
      let several = ltb 1 (length h.responders) in
      let sampled = sampled_flows h in
      let many = leb 2 (length sampled) in
      if many && several && flt (avg_primary_ratio sampled) (literal 70 100)
      then per_packet
      else if many && ltb 1 unique
      then per_flow
      else if several && leb 8 h.received && is_spread (hop_primary_ratio h)
      then per_packet
      else if ltb 1 unique
      then per_flow
      else no_ecmp

  abbrev is_ecmp : EcmpKind → Bool
  is_ecmp no_ecmp = false
  is_ecmp per_flow = true
  is_ecmp per_packet = true

  pub has_ecmp : Hop f64 → Bool
  unfolding ecmp_kind
  has_ecmp h = is_ecmp (ecmp_kind h)

  abbrev one_if : Option IpAddr → ℕ
  one_if none = 0
  one_if (some ip) = 1

  abbrev paths_of : EcmpKind → Hop f64 → ℕ
  paths_of per_packet h =
      max (max (length h.responders) (unique_flow_primary_count h)) (one_if h.primary)
  paths_of per_flow h = max (unique_flow_primary_count h) (one_if h.primary)
  paths_of no_ecmp h = max (unique_flow_primary_count h) (one_if h.primary)

  pub path_count : Hop f64 → ℕ
  unfolding ecmp_kind
  path_count h = paths_of (ecmp_kind h) h

  one_if-le : (o : Option IpAddr) → one_if o ≤ 1
  one_if-le none = omega arith
  one_if-le (some ip) = omega arith

  -- Load balancing is reported at a hop exactly if more than one path is counted there.
  pub has_ecmp_iff : (h : Hop f64) → (has_ecmp h ≡ true) ↔ (2 ≤ path_count h)
  unfolding has_ecmp path_count ecmp_kind
  has_ecmp_iff h = ground (arith, one_if-le h.primary)
