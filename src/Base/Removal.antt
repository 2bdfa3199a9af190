-- ===== src/Base/Removal.antt =====
-- `HashMap::remove` on the association lists of Assoc.

use mathlib.Core.Path.{◌≡◌, refl}
use mathlib.Core.Bool.{true, false}
use mathlib.Core.Option.{Option, none, some}
use mathlib.Core.List.{List, [], ◌∷◌}
use native.Mathlib.Omega.{arith}
use ttl.Base.Assoc.{Key, get, AreDistinct}

module _ {ℓ κ} {K : Type ℓ} {V : Type κ} ⦃key : Key K⦄ where
  -- The value removed, if any, and what is left of the map.
  unfoldable pub remove : K → List (K × V) → Option V × List (K × V)
  remove k [] = (none, [])
  remove k ((j, v) ∷ m) =
      let rest = remove k m in
      elim (key.same j k) [ true ↦ (some v, m) | false ↦ (rest.0, (j, v) ∷ rest.1) ]

  pub remove-eq-get : (k : K) (m : List (K × V)) → (remove k m).0 ≡ get k m
  unfolding remove get
  remove-eq-get k [] = refl
  remove-eq-get k ((j, v) ∷ m) = ground (arith, remove-eq-get k m)

  pub remove_absent : (k : K) (m : List (K × V)) → get k m ≡ none → (remove k m).1 ≡ m
  unfolding remove get
  remove_absent k [] h = refl
  remove_absent k ((j, v) ∷ m) h = ground (arith, remove_absent k m)

  pub get-remove_ne :
      (k i : K) (m : List (K × V)) → key.same k i ≡ false → get i (remove k m).1 ≡ get i m
  unfolding remove get
  get-remove_ne k i [] h = refl
  get-remove_ne k i ((j, v) ∷ m) h =
      ground (arith, key.same_iff j k, key.same_iff j i, key.same_iff k i, get-remove_ne k i m)

  pub get-remove_self : (k : K) (m : List (K × V)) → AreDistinct m → get k (remove k m).1 ≡ none
  unfolding remove get
  get-remove_self k [] h = refl
  get-remove_self k ((j, v) ∷ m) h = ground (arith, key.same_iff j k, get-remove_self k m h.1, h.0)
