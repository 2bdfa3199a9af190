-- ===== src/State/Session/Frame.antt =====
-- state/session.rs, `Session::hop_mut`: a change of one hop changes nothing but the hops.
use ttl.Base.{ℕ, ◌-◌, ◌≡◌, refl, Bool-cases, inl, inr, length, length-modify}
use ttl.Base.Float.{Float}
use ttl.State.Hop.{Hop}
use ttl.State.Session.{Session, with_hop, has_hop}

module _ (f64 : Float) where
  pub with_hop-frame :
      (ttl : ℕ) (f : Hop f64 → Hop f64) (s : Session f64)
      → with_hop f64 ttl f s ≡ record s { hops = (with_hop f64 ttl f s).hops }
  unfolding with_hop
  with_hop-frame ttl f s = elim (Bool-cases (has_hop f64 ttl s)) [
    | inl there ↦ rw there refl
    | inr absent ↦ rw absent refl
  ]

  pub length-with_hop :
      (ttl : ℕ) (f : Hop f64 → Hop f64) (s : Session f64)
      → length (with_hop f64 ttl f s).hops ≡ length s.hops
  unfolding with_hop
  length-with_hop ttl f s = elim (Bool-cases (has_hop f64 ttl s)) [
    | inl there ↦ rw there (length-modify (ttl - 1) f s.hops)
    | inr absent ↦ rw absent refl
  ]
