-- ===== src/Base/Leader.antt =====
-- `max_by_key` on a map that has just been written to.
use mathlib.Core.Path.{◌≡◌, refl}
use mathlib.Core.Bool.{Bool, true, false}
use mathlib.Core.Option.{some}
use mathlib.Core.List.{List, [], ◌∷◌}
use Prim.Native.Nat.{ℕ}
use ttl.Base.Assoc.{
  Key, get, upsert, max_entry, AllAtMost, AreDistinct, upsert-AreDistinct, max_entry-get,
  max_entry-AllAtMost,
}

module _ {K V : Type 0} ⦃key : Key K⦄ (measure : V → ℕ) where
  -- `e` is the entry chosen; it is in the map, and none is larger.
  pub record Leads (m : List (K × V)) (e : K × V) : Type 0 where
    pub chosen : max_entry measure m ≡ some e
    pub held : get e.0 m ≡ some e.1
    pub most : AllAtMost measure (measure e.1) m

  HasMost : List (K × V) → Type 0
  HasMost m = (e : K × V) × (max_entry measure m ≡ some e)

  if-HasMost :
      (b : Bool) (x y : K × V) (xs ys : List (K × V))
      → HasMost (elim b [ true ↦ x ∷ xs | false ↦ y ∷ ys ])
  unfolding HasMost max_entry
  if-HasMost true x y xs ys = (_, refl)
  if-HasMost false x y xs ys = (_, refl)

  upsert-HasMost : (k : K) (fresh : V) (f : V → V) (m : List (K × V)) → HasMost (upsert k fresh f m)
  unfolding upsert
  upsert-HasMost k fresh f [] = if-HasMost true (k, f fresh) (k, f fresh) [] []
  upsert-HasMost k fresh f ((j, v) ∷ m) =
      if-HasMost (key.same j k) (j, f v) (j, v) m (upsert k fresh f m)

  pub upsert-Leads :
      (k : K) (fresh : V) (f : V → V) (m : List (K × V))
      → AreDistinct m
      → (e : K × V) × Leads (upsert k fresh f m) e
  unfolding HasMost
  upsert-Leads k fresh f m d =
      let m' = upsert k fresh f m in
      let (e, chosen) = upsert-HasMost k fresh f m in
      (
        e,
        record {
          chosen = chosen;
          held = max_entry-get measure m' e (upsert-AreDistinct k fresh f m d) chosen;
          most = max_entry-AllAtMost measure m' e chosen;
        },
      )
