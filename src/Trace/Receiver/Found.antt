-- ===== src/Trace/Receiver/Found.antt =====
-- trace/receiver.rs, `run_blocking`: the pending probe that a response is matched to, over all targets.
use ttl.Base.{
  ℕ, ◌≡◌, ◌⊎◌, inl, inr, refl, sym, ap, ◌∙◌, subst, Bool, ◌||◌, Option, none, some, List, [], ◌∷◌,
}
use ttl.Base.Net.{IpAddr}
use ttl.Probe.Id.{ProbeId}
use ttl.Probe.Response.{ParsedResponse}
use ttl.Trace.Pending.{PendingProbe, PendingMap}
use ttl.Trace.Receiver.{remove_pending_by_flow_hint}
use ttl.Trace.Receiver.Apply.{is_frag_needed}
use ttl.Trace.Receiver.Loop.{remove_from_targets, by_destination, find_probe}
use ttl.Trace.Receiver.Matching.{Taken, of_either, remove_pending-Taken}

abbrev pub IsAmong : IpAddr → List IpAddr → Type 0
IsAmong t [] = ⊥
IsAmong t (target ∷ targets) = (t ≡ target) ⊎ IsAmong t targets

-- Nothing was taken, or a probe sent to a target that `P` allows.
abbrev pub TakenFrom :
    (IpAddr → Type 0) → PendingMap → ProbeId → Option ℕ → Option PendingProbe × PendingMap → Type 0
TakenFrom P pending id hint r =
    (r ≡ (none, pending)) ⊎ ((t : IpAddr) × P t × Taken pending id t hint r)

-- What is left when nothing was taken is the whole map.
untouched :
    (pending : PendingMap) (id : ProbeId) (t : IpAddr) (hint : Option ℕ)
    (r : Option PendingProbe × PendingMap)
    → Taken pending id t hint r
    → r.0 ≡ none
    → r.1 ≡ pending
unfolding Taken
untouched pending id t hint r (inl e) absent = ap (λ (p : Option PendingProbe × PendingMap). p.1) e
untouched pending id t hint r (inr (flow, kind, probe, a, there, e, some_probe)) absent =
    absurd (let clash : none ≡ some probe = sym absent ∙ some_probe in cc)

widen :
    (P Q : IpAddr → Type 0) (pending : PendingMap) (id : ProbeId) (hint : Option ℕ)
    (r : Option PendingProbe × PendingMap)
    → ((t : IpAddr) → P t → Q t)
    → TakenFrom P pending id hint r
    → TakenFrom Q pending id hint r
widen P Q pending id hint r f (inl e) = inl e
widen P Q pending id hint r f (inr (t, allowed, taken)) = inr (t, f t allowed, taken)

-- A target is tried, and the search goes on if it has no probe for the response.
first_or_rest :
    (P : IpAddr → Type 0) (pending : PendingMap) (id : ProbeId) (hint : Option ℕ) (b : Bool)
    (target : IpAddr) (rest : PendingMap → Option PendingProbe × PendingMap)
    → P target
    → TakenFrom P pending id hint (rest pending)
    → let r = remove_pending_by_flow_hint pending id target hint b in
      TakenFrom P pending id hint (elim r.0 [ some probe ↦ r | none ↦ rest r.1 ])
first_or_rest P pending id hint b target rest allowed found =
    let r = remove_pending_by_flow_hint pending id target hint b in
    let taken = remove_pending-Taken pending id target hint b in
    of_either (TakenFrom P pending id hint) r.0 r (rest r.1) (inr (target, allowed, taken))
      (λ absent.
        subst (λ m. TakenFrom P pending id hint (rest m))
          (sym (untouched pending id target hint r taken absent)) found)

remove_from_targets-TakenFrom :
    (targets : List IpAddr) (pending : PendingMap) (id : ProbeId) (hint : Option ℕ) (b : Bool)
    → TakenFrom
        (λ t. IsAmong t targets)
        pending
        id
        hint
        (remove_from_targets targets pending id hint b)
unfolding remove_from_targets
remove_from_targets-TakenFrom [] pending id hint b = inl refl
remove_from_targets-TakenFrom (target ∷ targets) pending id hint b =
    first_or_rest (λ t. IsAmong t (target ∷ targets)) pending id hint b target
      (λ m. remove_from_targets targets m id hint b) (inl refl)
      (widen (λ t. IsAmong t targets) _ pending id hint _ (λ t among. inr among)
        (remove_from_targets-TakenFrom targets pending id hint b))

-- A response takes at most one probe from the map: one sent with its identity to the destination that
-- it quotes, or else to one of the targets of the run, and by the flow that the hint names if it
-- names one. Nothing else of the map changes, whichever kind of response it is.
pub find_probe-Taken :
    (targets : List IpAddr) (pending : PendingMap) (parsed : ParsedResponse) (hint : Option ℕ)
    → TakenFrom
        (λ t. (parsed.original_dest ≡ some t) ⊎ IsAmong t targets)
        pending
        parsed.probe_id
        hint
        (find_probe targets pending parsed hint)
unfolding find_probe
find_probe-Taken targets pending parsed hint = looked_up parsed.original_dest (λ t e. e)
  where
    b : Bool
    b = parsed.is_pmtud || is_frag_needed parsed.response_type

    P : IpAddr → Type 0
    P t = (parsed.original_dest ≡ some t) ⊎ IsAmong t targets

    fallback : PendingMap → Option PendingProbe × PendingMap
    fallback m = remove_from_targets targets m parsed.probe_id hint b

    fallback-TakenFrom : TakenFrom P pending parsed.probe_id hint (fallback pending)
    fallback-TakenFrom =
        widen (λ t. IsAmong t targets) P pending parsed.probe_id hint _ (λ t among. inr among)
          (remove_from_targets-TakenFrom targets pending parsed.probe_id hint b)

    looked_up :
        (dest : Option IpAddr)
        → ((t : IpAddr) → dest ≡ some t → parsed.original_dest ≡ some t)
        → let first = by_destination dest pending parsed.probe_id hint b in
          TakenFrom P pending parsed.probe_id hint
            (elim first.0 [ some probe ↦ first | none ↦ fallback first.1 ])
    looked_up none same = fallback-TakenFrom
    looked_up (some dest) same =
        first_or_rest P pending parsed.probe_id hint b dest fallback (inl (same dest refl))
          fallback-TakenFrom
