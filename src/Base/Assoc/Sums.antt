-- ===== src/Base/Assoc/Sums.antt =====
-- The largest entry of a map by a measure, and the sum over the map.
use Prim.Native.Nat.{ℕ, ◌+◌, ◌≤◌}
use mathlib.Core.Path.{◌≡◌, subst}
use mathlib.Core.Option.{Option, none, some}
use mathlib.Core.List.{List, [], ◌∷◌}
use native.Mathlib.Omega.{arith}
use ttl.Base.Tests.{leb, if◌then◌else◌}
use ttl.Base.Assoc.Entries.{Key, nat_key, ip_key, get, upsert, entry}

module _ {ℓ κ} {K : Type ℓ} {V : Type κ} (measure : V → ℕ) where
  -- `map.iter().max_by_key(|(_, v)| measure(v))`, from the best entry so far on: of equal entries
  -- the last one counts.
  unfoldable pub max_from : K × V → List (K × V) → K × V
  max_from best [] = best
  max_from best ((k, v) ∷ m) =
      max_from (if leb (measure best.1) (measure v) then (k, v) else best) m

  unfoldable pub max_entry : List (K × V) → Option (K × V)
  unfolding max_from
  max_entry [] = none
  max_entry (e ∷ m) = some (max_from e m)

  -- Every value of the map is at most `n`.
  abbrev pub AllAtMost : ℕ → List (K × V) → Type 0
  AllAtMost n [] = Unit
  AllAtMost n ((k, v) ∷ m) = (measure v ≤ n) × AllAtMost n m

  -- The sum over the map.
  unfoldable pub sum_of : List (K × V) → ℕ
  sum_of [] = 0
  sum_of ((k, v) ∷ m) = measure v + sum_of m

  max_from-AllAtMost :
      (best : K × V) (m : List (K × V))
      → (measure best.1 ≤ measure (max_from best m).1) × AllAtMost (measure (max_from best m).1) m
  unfolding max_from
  max_from-AllAtMost best [] = omega arith
  max_from-AllAtMost best ((k, v) ∷ m) =
      let rest = max_from-AllAtMost (if leb (measure best.1) (measure v) then (k, v) else best) m in
      (ground (arith, rest.0), (ground (arith, rest.0), rest.1))

  -- The entry chosen is a largest one.
  pub max_entry-AllAtMost :
      (m : List (K × V)) (e : K × V) → max_entry m ≡ some e → AllAtMost (measure e.1) m
  unfolding max_entry
  max_entry-AllAtMost [] e h = tt
  max_entry-AllAtMost ((k, v) ∷ m) e h =
      let top : max_from (k, v) m ≡ e = cc in
      subst (λ t. AllAtMost (measure t.1) ((k, v) ∷ m)) top (max_from-AllAtMost (k, v) m)

module _ {ℓ κ} {K : Type ℓ} {V : Type κ} ⦃key : Key K⦄ (measure : V → ℕ) where
  pub le_of_get :
      (n : ℕ) (m : List (K × V)) (k : K) (v : V)
      → AllAtMost measure n m
      → get k m ≡ some v
      → measure v ≤ n
  unfolding get
  le_of_get n [] k v h e = cc
  le_of_get n ((j, w) ∷ m) k v h e = ground (arith, le_of_get n m k v)

  -- A change of one entry changes the sum by the change of its measure.
  pub sum_of-upsert :
      (k : K) (fresh : V) (f : V → V) (m : List (K × V))
      → measure fresh ≡ 0
      → sum_of measure (upsert k fresh f m) + measure (entry k fresh m)
        ≡ sum_of measure m + measure (f (entry k fresh m))
  unfolding sum_of upsert get
  sum_of-upsert k fresh f [] z = omega arith
  sum_of-upsert k fresh f ((j, v) ∷ m) z = ground (arith, sum_of-upsert k fresh f m z)

  pub le_of_entry :
      (k : K) (fresh : V) (m : List (K × V))
      → measure fresh ≡ 0
      → measure (entry k fresh m) ≤ sum_of measure m
  unfolding sum_of get
  le_of_entry k fresh [] z = omega arith
  le_of_entry k fresh ((j, v) ∷ m) z = ground (arith, le_of_entry k fresh m z)
