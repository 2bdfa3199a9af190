-- ===== src/Export/Diff/Same.antt =====
-- export/diff.rs: a session does not differ from itself.
use ttl.Base.{
  ℕ, zero, suc, ◌+◌, ◌%◌, ◌≡◌, ◌∙◌, refl, Bool, true, false, not, Option, none, some, List, [], ◌∷◌,
  length, keep, arith, max,
}
use ttl.Base.Net.{IpAddr, ip_eq_self}
use ttl.Base.Float.{Float}
use ttl.State.Session.{Session}
use ttl.Export.Diff.{
  contains, same_ip, HopSnapshot, HopDiff, missing, diff_hop, diff_from, diff_sessions, rtt_shifts,
  rtt_delta, any_changed, has_changes, snapshot_at, is_significant,
}

same_ip_self : (o : Option IpAddr) → same_ip o o ≡ true
same_ip_self none = refl
same_ip_self (some a) = ip_eq_self a

keep-skip {ℓ} :
    {A : Type ℓ} (p : A → Bool) (x : A) (xs : List A) → p x ≡ false → keep p (x ∷ xs) ≡ keep p xs
keep-skip p x xs h = rw (h, keep) refl

module _ (f64 : Float) where
  open f64 use {F64, literal, fsub, fabs, fle}

  missing_none :
      (xs ys : List IpAddr)
      → ((ip : IpAddr) → contains ip xs ≡ true → contains ip ys ≡ true)
      → missing f64 ys xs ≡ []
  missing_none [] ys within = refl
  missing_none (x ∷ xs) ys within =
      let e : contains x ys ≡ true = within x (rw (ip_eq_self x) refl) in
      keep-skip (λ ip. not (contains ip ys)) x xs (rw e refl)
      ∙ missing_none xs ys (λ ip h. within ip (ground (arith, h)))

  missing_self : (xs : List IpAddr) → missing f64 xs xs ≡ []
  missing_self xs = missing_none xs xs (λ ip h. h)

  -- What is known of floats: the difference of a number and itself, which is zero or not a number, is
  -- not 5 or more.
  abbrev pub IsCancelling : Type 0
  IsCancelling = (x : F64) → fle (literal 5 1) (fabs (fsub x x)) ≡ false

  abbrev IsQuiet : List (HopDiff f64) → Type 0
  IsQuiet ds = (rtt_shifts f64 ds ≡ 0) × (any_changed f64 ds ≡ false)

  insignificant : IsCancelling → (o : Option F64) → is_significant f64 (rtt_delta f64 o o) o ≡ false
  insignificant cancelling none = refl
  insignificant cancelling (some x) = rw (cancelling x) refl

  diff_hop-IsQuiet :
      IsCancelling
      → (ttl : ℕ) (o : Option (HopSnapshot f64)) (rest : List (HopDiff f64)) → IsQuiet rest
      → IsQuiet (elim (diff_hop f64 ttl o o) [ none ↦ rest | some d ↦ d ∷ rest ])
  unfolding diff_hop
  diff_hop-IsQuiet cancelling ttl none rest quiet = quiet
  diff_hop-IsQuiet cancelling ttl (some snap) rest quiet =
      rw
        (
          insignificant cancelling snap.avg_rtt_ms,
          same_ip_self snap.primary,
          missing_self snap.responders,
        )
        quiet

  diff_from-IsQuiet : IsCancelling → (n i : ℕ) (s : Session f64) → IsQuiet (diff_from f64 n i s s)
  unfolding diff_from
  diff_from-IsQuiet cancelling zero i s = (refl, refl)
  diff_from-IsQuiet cancelling (suc n) i s =
      diff_hop-IsQuiet cancelling ((i + 1) % 256) (snapshot_at f64 i s)
        (diff_from f64 n (i + 1) s s) (diff_from-IsQuiet cancelling n (i + 1) s)

  -- The comparison of a session with itself reports no change, as long as the difference of a float
  -- and itself is not 5 or more.
  pub has_changes-diff_sessions_self :
      IsCancelling → (s : Session f64) → has_changes f64 (diff_sessions f64 s s) ≡ false
  unfolding has_changes diff_sessions
  has_changes-diff_sessions_self cancelling s =
      let quiet = diff_from-IsQuiet cancelling (max (length s.hops) (length s.hops)) 0 s in
      rw (quiet.0, quiet.1) refl
