-- ===== src/Base/Assoc/Measured.antt =====
-- A map of which only a number of each value is looked at.
use Prim.Native.Nat.{ℕ}
use mathlib.Core.Path.{◌≡◌, refl, ap}
use mathlib.Core.Bool.{Bool, true, false}
use mathlib.Core.List.{List, [], ◌∷◌}
use ttl.Base.Assoc.Entries.{Key, upsert}

module _ {ℓ κ} {K : Type ℓ} {V : Type κ} (measure : V → ℕ) where
  abbrev pub measured : List (K × V) → List (K × ℕ)
  measured [] = []
  measured ((k, v) ∷ m) = (k, measure v) ∷ measured m

module _ {ℓ κ} {K : Type ℓ} {V : Type κ} ⦃key : Key K⦄ (measure : V → ℕ) where
  pub upsert-measured :
      (k : K) (fresh : V) (f : V → V) (g : ℕ → ℕ) (m : List (K × V))
      → ((v : V) → measure (f v) ≡ g (measure v))
      → measured measure (upsert k fresh f m) ≡ upsert k (measure fresh) g (measured measure m)
  unfolding upsert
  upsert-measured k fresh f g [] h = rw (h fresh) refl
  upsert-measured k fresh f g ((j, v) ∷ m) h =
      let tail = upsert-measured k fresh f g m h in choose (key.same j k) tail
    where
      choose :
          (b : Bool)
          → measured measure (upsert k fresh f m) ≡ upsert k (measure fresh) g (measured measure m)
          → measured measure (elim b [ true ↦ (j, f v) ∷ m | false ↦ (j, v) ∷ upsert k fresh f m ])
            ≡ elim b [
              | true ↦ (j, g (measure v)) ∷ measured measure m
              | false ↦ (j, measure v) ∷ upsert k (measure fresh) g (measured measure m)
            ]
      choose true tail = rw (h v) refl
      choose false tail = ap (◌∷◌ (j, measure v)) tail
