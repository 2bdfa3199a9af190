-- ===== src/Base/Assoc/Distinct.antt =====
-- Maps in which no key stands twice.
use Prim.Native.Nat.{ℕ}
use mathlib.Core.Path.{◌≡◌, refl, sym, subst, ◌∙◌}
use mathlib.Core.Logic.{◌⊎◌, inl, inr}
use mathlib.Core.Bool.{true, false}
use mathlib.Core.Option.{none, some}
use mathlib.Core.List.{List, [], ◌∷◌}
use native.Mathlib.Omega.{arith}
use ttl.Base.Tests.{leb, Bool-cases}
use ttl.Base.Assoc.Entries.{Key, nat_key, ip_key, get, upsert, get-upsert_ne}
use ttl.Base.Assoc.Sums.{max_from, max_entry}

module _ {ℓ κ} {K : Type ℓ} {V : Type κ} ⦃key : Key K⦄ where
  -- No key stands twice.
  abbrev pub AreDistinct : List (K × V) → Type κ
  AreDistinct [] = Unit
  AreDistinct ((k, v) ∷ m) = (get k m ≡ none) × AreDistinct m

  upsert_same :
      (k j : K) (fresh v : V) (f : V → V) (m : List (K × V))
      → key.same j k ≡ true
      → upsert k fresh f ((j, v) ∷ m) ≡ (j, f v) ∷ m
  unfolding upsert
  upsert_same k j fresh v f m e = rw (e, upsert)

  upsert_other :
      (k j : K) (fresh v : V) (f : V → V) (m : List (K × V))
      → key.same j k ≡ false
      → upsert k fresh f ((j, v) ∷ m) ≡ (j, v) ∷ upsert k fresh f m
  unfolding upsert
  upsert_other k j fresh v f m e = rw (e, upsert)

  pub upsert-AreDistinct :
      (k : K) (fresh : V) (f : V → V) (m : List (K × V))
      → AreDistinct m
      → AreDistinct (upsert k fresh f m)
  upsert-AreDistinct k fresh f [] h = unfold upsert get in (refl, tt)
  upsert-AreDistinct k fresh f ((j, v) ∷ m) h = elim (Bool-cases (key.same j k)) [
    | inl same ↦ rw (upsert_same k j fresh v f m same) h
    | inr other ↦
        let absent : get j (upsert k fresh f m) ≡ none =
          get-upsert_ne k j fresh f m (ground (arith, key.same_iff j k, key.same_iff k j)) ∙ h.0 in
        rw (upsert_other k j fresh v f m other) (absent, upsert-AreDistinct k fresh f m h.1)
  ]

  get_head : (k : K) (v : V) (m : List (K × V)) → get k ((k, v) ∷ m) ≡ some v
  unfolding get
  get_head k v m = let e = (key.same_iff k k).1 refl in rw (e, get)

  get_tail :
      (i k : K) (v w : V) (m : List (K × V))
      → get k m ≡ none
      → get i m ≡ some w
      → get i ((k, v) ∷ m) ≡ some w
  get_tail i k v w m absent e = elim (Bool-cases (key.same k i)) [
    | inl same ↦ let p : k ≡ i = (key.same_iff k i).0 same in absurd (false_of absent p e)
    | inr other ↦ unfold get in rw (other, get) e
  ]
    where
      false_of : get k m ≡ none → k ≡ i → get i m ≡ some w → ⊥
      false_of a p e = cc

module _ {ℓ κ} {K : Type ℓ} {V : Type κ} ⦃key : Key K⦄ (measure : V → ℕ) where
  max_from_newer :
      (best : K × V) (k : K) (v : V) (m : List (K × V))
      → leb (measure best.1) (measure v) ≡ true
      → max_from measure best ((k, v) ∷ m) ≡ max_from measure (k, v) m
  unfolding max_from
  max_from_newer best k v m e = rw e

  max_from_older :
      (best : K × V) (k : K) (v : V) (m : List (K × V))
      → leb (measure best.1) (measure v) ≡ false
      → max_from measure best ((k, v) ∷ m) ≡ max_from measure best m
  unfolding max_from
  max_from_older best k v m e = rw e

  -- The entry `e` is held under its key.
  abbrev IsHeld : List (K × V) → K × V → Type κ
  IsHeld m e = get e.0 m ≡ some e.1

  max_from-get :
      (best : K × V) (m : List (K × V))
      → AreDistinct m
      → (max_from measure best m ≡ best) ⊎ IsHeld m (max_from measure best m)
  max_from-get best [] h = unfold max_from in inl refl
  max_from-get best ((k, v) ∷ m) h = elim (Bool-cases (leb (measure best.1) (measure v))) [
    | inl newer ↦ inr (
        subst (IsHeld ((k, v) ∷ m)) (sym (max_from_newer best k v m newer))
          (elim (max_from-get (k, v) m h.1) [
            | inl e ↦ subst (IsHeld ((k, v) ∷ m)) (sym e) (get_head k v m)
            | inr g ↦ get_tail _ k v _ m h.0 g
          ]))
    | inr older ↦
        let step = max_from_older best k v m older in
        elim (max_from-get best m h.1) [
          | inl e ↦ inl (step ∙ e)
          | inr g ↦ inr (subst (IsHeld ((k, v) ∷ m)) (sym step) (get_tail _ k v _ m h.0 g))
        ]
  ]

  -- The entry chosen is the one that the map holds under its key.
  pub max_entry-get :
      (m : List (K × V)) (e : K × V)
      → AreDistinct m
      → max_entry measure m ≡ some e
      → get e.0 m ≡ some e.1
  unfolding max_entry
  max_entry-get [] e h p = cc
  max_entry-get ((k, v) ∷ m) e h p =
      let top : max_from measure (k, v) m ≡ e = cc in
      subst (IsHeld ((k, v) ∷ m)) top (elim (max_from-get (k, v) m h.1) [
        | inl e ↦ subst (IsHeld ((k, v) ∷ m)) (sym e) (get_head k v m)
        | inr g ↦ get_tail _ k v _ m h.0 g
      ])
