-- ===== src/Export/Diff/Mirror.antt =====
-- export/diff.rs: the comparison in the other direction reports the same changes, mirrored.
use ttl.Base.{
  ℕ, zero, suc, ◌+◌, ◌%◌, ◌≡◌, refl, ap, ◌∙◌, Bool, true, false, sym, Option, none, some, List, [],
  ◌∷◌, map, length, max, arith, if◌then◌else◌,
}
use ttl.Base.Net.{IpAddr, v4, v6, ip_eq}
use ttl.Base.Float.{Float}
use ttl.State.Session.{Session}
use ttl.Export.Diff.{
  HopChange, unchanged, path_change, added, lost, same_ip, HopSnapshot, HopDiff, diff_hop,
  diff_from, diff_sessions, snapshot_at, missing,
}

ip_eq_comm : (a b : IpAddr) → ip_eq a b ≡ ip_eq b a
ip_eq_comm (v4 a) (v4 b) = ground arith
ip_eq_comm (v4 a) (v6 b) = refl
ip_eq_comm (v6 a) (v4 b) = refl
ip_eq_comm (v6 a) (v6 b) = ground arith

same_ip_comm : (a b : Option IpAddr) → same_ip a b ≡ same_ip b a
same_ip_comm none none = refl
same_ip_comm none (some b) = refl
same_ip_comm (some a) none = refl
same_ip_comm (some a) (some b) = ip_eq_comm a b

-- What a hop gained is what it lost in the other direction.
abbrev pub mirror : HopChange → HopChange
mirror unchanged = unchanged
mirror path_change = path_change
mirror added = lost
mirror lost = added

mirror-choice :
    (same : Bool)
    → mirror (if same then unchanged else path_change) ≡ (if same then unchanged else path_change)
mirror-choice true = refl
mirror-choice false = refl

abbrev pub Report : Type 0
Report = ℕ × HopChange × List IpAddr × List IpAddr

module _ (f64 : Float) where
  abbrev pub report : HopDiff f64 → Report
  report d = (d.ttl, d.change, d.responders_added, d.responders_removed)

  abbrev pub mirrored : HopDiff f64 → Report
  mirrored d = (d.ttl, mirror d.change, d.responders_removed, d.responders_added)

  step_mirrored :
      (ttl : ℕ) (a b : Option (HopSnapshot f64)) (xs ys : List (HopDiff f64))
      → map report xs ≡ map mirrored ys
      → map report (elim (diff_hop f64 ttl a b) [ none ↦ xs | some d ↦ d ∷ xs ])
        ≡ map mirrored (elim (diff_hop f64 ttl b a) [ none ↦ ys | some d ↦ d ∷ ys ])
  unfolding diff_hop
  step_mirrored ttl none none xs ys same = same
  step_mirrored ttl none (some b) xs ys same = ap (◌∷◌ (ttl, added, [], [])) same
  step_mirrored ttl (some a) none xs ys same = ap (◌∷◌ (ttl, lost, [], [])) same
  step_mirrored ttl (some a) (some b) xs ys same =
      let gained = missing f64 a.responders b.responders in
      let gone = missing f64 b.responders a.responders in
      let change : HopChange = if same_ip b.primary a.primary then unchanged else path_change in
      let same_change =
        ap (λ s. if s then unchanged else path_change) (same_ip_comm a.primary b.primary)
        ∙ sym (mirror-choice (same_ip b.primary a.primary)) in
      ap (λ c. (ttl, c, gained, gone) ∷ map report xs) same_change
      ∙ ap (◌∷◌ (ttl, mirror change, gained, gone)) same

  from_mirrored :
      (n i : ℕ) (s t : Session f64)
      → map report (diff_from f64 n i s t) ≡ map mirrored (diff_from f64 n i t s)
  unfolding diff_from
  from_mirrored zero i s t = refl
  from_mirrored (suc n) i s t =
      step_mirrored ((i + 1) % 256) (snapshot_at f64 i s) (snapshot_at f64 i t)
        (diff_from f64 n (i + 1) s t) (diff_from f64 n (i + 1) t s) (from_mirrored n (i + 1) s t)

  -- The comparison of two sessions and the one of the same sessions in the other order report the
  -- same hops, with hops that were added in the one lost in the other, and the responders likewise.
  pub diff_sessions-mirrored :
      (s t : Session f64)
      → map report (diff_sessions f64 s t) ≡ map mirrored (diff_sessions f64 t s)
  unfolding diff_sessions
  diff_sessions-mirrored s t =
      from_mirrored (max (length s.hops) (length t.hops)) 0 s t
      ∙ ap (λ n. map mirrored (diff_from f64 n 0 t s)) (omega arith)
