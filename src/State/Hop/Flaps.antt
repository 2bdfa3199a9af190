-- ===== src/State/Hop/Flaps.antt =====
-- state/session.rs, `Hop`: the detection of route changes.
use ttl.Base.{
  ℕ, ◌+◌, ◌≤◌, ◌<◌, ◌≡◌, ◌≢◌, refl, false, Option, Option-cases, none, some, List, [], ◌∷◌, ◌++◌,
  ◌⊎◌, inl, inr, length, arith, drop,
}
use ttl.Base.Net.{IpAddr, ip_eq, ip_eq_iff}
use ttl.Base.Float.{Float}
use ttl.Base.Assoc.{max_entry, max_entry-get, AreDistinct, ip_key}
use ttl.Base.Windows.{push_capped, length-push_capped}
use ttl.State.Responder.{ResponderStats}
use ttl.State.Hop.{RouteChange, received_of, tracked_count, track, note_change}

-- Every change leads from one responder to another one.
abbrev pub AllMoves : List RouteChange → Type 0
AllMoves [] = Unit
AllMoves (c ∷ cs) = (c.from_ip ≢ c.to_ip) × AllMoves cs

AllMoves-append :
    (cs : List RouteChange) (c : RouteChange)
    → AllMoves cs
    → c.from_ip ≢ c.to_ip
    → AllMoves (cs ++ (c ∷ []))
AllMoves-append [] c h ne = (ne, tt)
AllMoves-append (d ∷ cs) c h ne = (h.0, AllMoves-append cs c h.1 ne)

AllMoves-drop : (cs : List RouteChange) → AllMoves cs → AllMoves (drop 1 cs)
AllMoves-drop [] h = tt
AllMoves-drop (c ∷ cs) h = h.1

AllMoves-push :
    (cs : List RouteChange) (c : RouteChange)
    → AllMoves cs
    → c.from_ip ≢ c.to_ip
    → AllMoves (push_capped 50 cs c)
unfolding push_capped
AllMoves-push cs c h ne =
    let all = AllMoves-append cs c h ne in ground (arith, all, AllMoves-drop (cs ++ (c ∷ [])) all)

ne_of_ip_eq : (a b : IpAddr) → ip_eq a b ≡ false → a ≢ b
ne_of_ip_eq a b h p = ground (arith, ip_eq_iff a b)

-- The history of route changes keeps at most fifty entries, each a change between two different
-- responders; and before the fifth answer nothing is added to it.
pub note_change-AllMoves :
    (received : ℕ) (old new : Option IpAddr) (changes : List RouteChange)
    → length changes ≤ 50
    → AllMoves changes
    → let changes' = note_change received old new changes in
      (length changes' ≤ 50) × AllMoves changes' × ((5 ≤ received) ⊎ (changes' ≡ changes))
unfolding note_change
note_change-AllMoves n none new cs h m = (h, m, inr refl)
note_change-AllMoves n (some old) none cs h m = (h, m, inr refl)
note_change-AllMoves n (some old) (some new) cs h m =
    let c : RouteChange = record { from_ip = old; to_ip = new; at_seq = n } in
    ground (arith, length-push_capped 50 cs c h, AllMoves-push cs c m, ne_of_ip_eq old new)

module _ (f64 : Float) where
  -- In a table that has each responder once, the responder tracked changes only to one whose count
  -- is at least two more than its own, as long as that sum does not overflow.
  pub track-margin :
      (old new : IpAddr) (responders : List (IpAddr × ResponderStats f64))
      → AreDistinct responders
      → tracked_count f64 (some old) responders + 2 < 18446744073709551616
      → track f64 (some old) responders ≡ some new
      → (new ≡ old)
        ⊎ (tracked_count f64 (some old) responders + 2 ≤ tracked_count f64 (some new) responders)
  unfolding track
  track-margin old new responders d small t =
      elim (Option-cases (max_entry (received_of f64) responders)) [
        | inl nobody ↦ ground arith
        | inr (e, leader) ↦
            let held = max_entry-get (received_of f64) responders e d leader in
            unfold tracked_count in ground (arith, held, leader)
      ]
