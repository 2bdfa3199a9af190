-- ===== src/Base/Assoc/Entries.antt =====
-- Looking up an entry, and writing to it.
use Prim.Native.Nat.{ℕ}
use mathlib.Core.Path.{◌≡◌}
use mathlib.Core.Logic.{◌↔◌}
use mathlib.Core.Bool.{Bool, true, false}
use mathlib.Core.Option
use mathlib.Core.Option.{Option, none, some}
use mathlib.Core.List.{List, [], ◌∷◌}
use native.Mathlib.Omega.{arith}
use ttl.Base.Tests.{◌==◌, ==_iff}
use ttl.Base.Net.{IpAddr, ip_eq, ip_eq_iff}

-- Keys with a test for equality.
pub record Key {ℓ} (K : Type ℓ) : Type ℓ where
  pub same : K → K → Bool
  pub same_iff : (a b : K) → (same a b ≡ true) ↔ (a ≡ b)

instance abbrev pub nat_key : Key ℕ
nat_key = record { same = ◌==◌; same_iff = ==_iff }

instance abbrev pub ip_key : Key IpAddr
ip_key = record { same = ip_eq; same_iff = ip_eq_iff }

module _ {ℓ κ} {K : Type ℓ} {V : Type κ} ⦃key : Key K⦄ where
  -- `map.get(&k)`
  unfoldable pub get : K → List (K × V) → Option V
  get k [] = none
  get k ((j, v) ∷ m) = let rest = get k m in elim (key.same j k) [ true ↦ some v | false ↦ rest ]

  -- `f(map.entry(k).or_insert(fresh))`
  unfoldable pub upsert : K → V → (V → V) → List (K × V) → List (K × V)
  upsert k fresh f [] = (k, f fresh) ∷ []
  upsert k fresh f ((j, v) ∷ m) =
      let rest = upsert k fresh f m in
      elim (key.same j k) [ true ↦ (j, f v) ∷ m | false ↦ (j, v) ∷ rest ]

  -- `if let Some(v) = map.get_mut(&k) { f(v) }`
  unfoldable pub adjust : K → (V → V) → List (K × V) → List (K × V)
  adjust k f [] = []
  adjust k f ((j, v) ∷ m) =
      let rest = adjust k f m in elim (key.same j k) [ true ↦ (j, f v) ∷ m | false ↦ (j, v) ∷ rest ]

  -- The entry of `k`, or what a new one starts from.
  abbrev pub entry : K → V → List (K × V) → V
  entry k fresh m = Option.get_or (get k m) fresh

  pub get-upsert_self :
      (k : K) (fresh : V) (f : V → V) (m : List (K × V))
      → get k (upsert k fresh f m) ≡ some (f (entry k fresh m))
  unfolding get upsert
  get-upsert_self k fresh f [] = ground (arith, key.same_iff k k)
  get-upsert_self k fresh f ((j, v) ∷ m) = ground (arith, get-upsert_self k fresh f m)

  pub get-upsert_ne :
      (k i : K) (fresh : V) (f : V → V) (m : List (K × V))
      → key.same k i ≡ false
      → get i (upsert k fresh f m) ≡ get i m
  unfolding get upsert
  get-upsert_ne k i fresh f [] h = ground arith
  get-upsert_ne k i fresh f ((j, v) ∷ m) h =
      ground
        (arith, key.same_iff j k, key.same_iff j i, key.same_iff k i, get-upsert_ne k i fresh f m h)
