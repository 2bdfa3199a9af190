-- ===== src/Trace/Receiver/Matching.antt =====
-- trace/receiver.rs, `remove_pending_by_flow_hint`: the probe taken is one of the response's.
use ttl.Base.{
  ℕ, ◌≤◌, ◌≡◌, ◌⊎◌, inl, inr, refl, Bool, true, false, Option, none, some, [], ◌∷◌, length, get_or,
  Option-cases, arith, ◌==◌, sym, subst, ◌∙◌, if◌then◌else◌, ◌&&◌,
}
use ttl.Base.Net.{IpAddr, ip_eq_iff}
use ttl.Base.Assoc.{get}
use ttl.Base.Removal.{remove, remove-eq-get, remove_absent}
use ttl.Probe.Id.{ProbeId}
use ttl.Trace.Pending.{PendingProbe, PendingMap, pending_key, id_eq_iff, same_kind_iff, key_eq_iff}
use ttl.Trace.Receiver.{
  key_for, remove_either, flows_of, remove_unambiguous, remove_pending_by_flow_hint,
}

-- The hint names the flow, or names none.
abbrev pub Allows : Option ℕ → ℕ → Type 0
Allows none flow_id = Unit
Allows (some hint) flow_id = hint ≡ flow_id

-- Nothing was removed, or the probe of one key of this identity and target was.
unfoldable pub Taken :
    PendingMap → ProbeId → IpAddr → Option ℕ → Option PendingProbe × PendingMap → Type 0
Taken pending probe_id target hint r =
    (r ≡ (none, pending))
    ⊎ ((flow_id : ℕ) × (is_pmtud : Bool) × (probe : PendingProbe) × Allows hint flow_id
        × (get (key_for probe_id flow_id target is_pmtud) pending ≡ some probe)
        × (r ≡ remove (key_for probe_id flow_id target is_pmtud) pending)
        × (r.0 ≡ some probe))

remove-Taken :
    (pending : PendingMap) (id : ProbeId) (target : IpAddr) (hint : Option ℕ) (f : ℕ) (b : Bool)
    → Allows hint f
    → Taken pending id target hint (remove (key_for id f target b) pending)
unfolding Taken
remove-Taken pending id target hint f b a =
    elim (Option-cases (get (key_for id f target b) pending)) [
      | inl absent ↦
          let e0 = remove-eq-get (key_for id f target b) pending ∙ absent in
          let e1 = remove_absent (key_for id f target b) pending absent in inl cc
      | inr (probe, there) ↦
          inr (f, b, probe, a, there, refl, remove-eq-get (key_for id f target b) pending ∙ there)
    ]

-- What holds of both results of a choice holds of the choice.
of_both :
    (P : Option PendingProbe × PendingMap → Type 0) (test : Bool)
    (x y : Option PendingProbe × PendingMap)
    → P x
    → P y
    → P (if test then x else y)
of_both P true x y px py = px
of_both P false x y px py = py

pub of_either :
    (P : Option PendingProbe × PendingMap → Type 0) (o : Option PendingProbe)
    (x y : Option PendingProbe × PendingMap)
    → P x
    → (o ≡ none → P y)
    → P (elim o [ some probe ↦ x | none ↦ y ])
of_either P none x y px py = py refl
of_either P (some probe) x y px py = px

remove_either-Taken :
    (pending : PendingMap) (id : ProbeId) (target : IpAddr) (f : ℕ) (b c : Bool)
    → Taken pending id target
        (some f)
        (remove_either (key_for id f target b) (key_for id f target c) pending)
unfolding remove_either
remove_either-Taken pending id target f b c =
    let first = key_for id f target b in
    of_either (Taken pending id target (some f)) (remove first pending).0 _ _
      (remove-Taken pending id target (some f) f b refl)
      (λ absent.
        let same = remove_absent first pending (sym (remove-eq-get first pending) ∙ absent) in
        subst (λ m. Taken pending id target (some f) (remove (key_for id f target c) m)) (sym same)
          (remove-Taken pending id target (some f) f c refl))

remove_unambiguous-Taken :
    (pending : PendingMap) (id : ProbeId) (target : IpAddr) (b : Bool)
    → Taken pending id target none (remove_unambiguous pending id target b)
unfolding remove_unambiguous
remove_unambiguous-Taken pending id target b =
    let normal = flows_of false id target pending in
    let pmtud = flows_of true id target pending in
    of_both P (b && length pmtud == 1) _ _ (taken (get_or pmtud 0 0) true) (
      of_both P (length normal == 1) _ _ (taken (get_or normal 0 0) false) (
        of_both P (length normal == 0 && length pmtud == 1) _ _ (taken (get_or pmtud 0 0) true)
          untouched))
  where
    P : Option PendingProbe × PendingMap → Type 0
    P = Taken pending id target none

    untouched : P (none, pending)
    untouched = unfold Taken in inl refl

    taken : (f : ℕ) (is_pmtud : Bool) → P (remove (key_for id f target is_pmtud) pending)
    taken f is_pmtud = remove-Taken pending id target none f is_pmtud tt

-- Whatever the hint and the kind of the response, at most one probe is taken from the map, one sent
-- with this identity to this target, and by the flow that the hint names if it names one. Nothing
-- else of the map changes.
pub remove_pending-Taken :
    (pending : PendingMap) (probe_id : ProbeId) (target : IpAddr) (hint : Option ℕ)
    (is_pmtud_response : Bool)
    → Taken pending probe_id target hint
        (remove_pending_by_flow_hint pending probe_id target hint is_pmtud_response)
unfolding remove_pending_by_flow_hint
remove_pending-Taken pending id target none b = remove_unambiguous-Taken pending id target b
remove_pending-Taken pending id target (some f) true =
    remove_either-Taken pending id target f true false
remove_pending-Taken pending id target (some f) false =
    remove_either-Taken pending id target f false true

-- A key that is there stands among the flows of its kind, and alone if they are one.
flows_of-here :
    (b : Bool) (id : ProbeId) (target : IpAddr) (pending : PendingMap) (f : ℕ) (q : PendingProbe)
    → get (key_for id f target b) pending ≡ some q
    → (1 ≤ length (flows_of b id target pending))
      × ((length (flows_of b id target pending) ≡ 1)
          → get_or (flows_of b id target pending) 0 0 ≡ f)
unfolding get flows_of
flows_of-here b id target [] f q h = cc
flows_of-here b id target ((k, v) ∷ pending) f q h = ground (
  arith,
  flows_of-here b id target pending f q,
  key_eq_iff k (key_for id f target b),
  id_eq_iff k.probe_id id,
  ip_eq_iff k.target target,
  same_kind_iff k.is_pmtud b,
)

-- With no hint, a response that is not about the path MTU takes no other probe than one given that
-- is pending for its identity and target and is not of the path MTU search itself.
pub remove_pending-unambiguous :
    (pending : PendingMap) (probe_id : ProbeId) (target : IpAddr) (flow_id : ℕ) (p q : PendingProbe)
    → get (key_for probe_id flow_id target false) pending ≡ some q
    → (remove_pending_by_flow_hint pending probe_id target none false).0 ≡ some p
    → p ≡ q
unfolding remove_pending_by_flow_hint remove_unambiguous
remove_pending-unambiguous pending id target f p q there taken = ground (
  arith,
  flows_of-here false id target pending f q there,
  remove-eq-get (key_for id f target false) pending,
)
