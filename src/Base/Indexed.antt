-- ===== src/Base/Indexed.antt =====
-- Entries of a list by their index, after an append and after a change of one.
use Prim.Native.Nat.{ℕ, zero, suc, ◌<◌}
use mathlib.Core.Path.{◌≡◌, refl, ap}
use mathlib.Core.Logic.{◌≢◌}
use mathlib.Core.List.{List, [], ◌∷◌, ◌++◌}
use mathlib.Core.Option.{Option, some}
use native.Mathlib.Omega.{arith}
use ttl.Base.Lists.{length, get_elem?, modify}
use ttl.Base.Tests.{◌>>=◌}

pub get-within {ℓ} :
    {A : Type ℓ} (xs : List A) (i : ℕ) → i < length xs → (x : A) × (get_elem? xs i ≡ some x)
get-within [] i h = absurd (omega arith)
get-within (x ∷ xs) zero h = (x, refl)
get-within (x ∷ xs) (suc i) h = get-within xs i (omega arith)

pub get_append {ℓ} :
    {A : Type ℓ} (xs ys : List A) (i : ℕ) → i < length xs → get_elem? (xs ++ ys) i ≡ get_elem? xs i
get_append [] ys i h = absurd (omega arith)
get_append (x ∷ xs) ys zero h = refl
get_append (x ∷ xs) ys (suc i) h = get_append xs ys i (omega arith)

pub get_last {ℓ} :
    {A : Type ℓ} (xs : List A) (y : A) → get_elem? (xs ++ (y ∷ [])) (length xs) ≡ some y
get_last [] y = refl
get_last (x ∷ xs) y = get_last xs y

pub get-modify {ℓ} :
    {A : Type ℓ} (f : A → A) (xs : List A) (i : ℕ) (x : A)
    → get_elem? xs i ≡ some x
    → get_elem? (modify i f xs) i ≡ some (f x)
get-modify f [] i x h = ground arith
get-modify f (y ∷ ys) zero x h = grind arith
get-modify f (y ∷ ys) (suc i) x h = get-modify f ys i x h

pub get_other {ℓ} :
    {A : Type ℓ} (f : A → A) (xs : List A) (i j : ℕ)
    → i ≢ j
    → get_elem? (modify i f xs) j ≡ get_elem? xs j
get_other f [] i j h = refl
get_other f (x ∷ xs) zero zero h = absurd (h refl)
get_other f (x ∷ xs) zero (suc j) h = refl
get_other f (x ∷ xs) (suc i) zero h = refl
get_other f (x ∷ xs) (suc i) (suc j) h = get_other f xs i j (λ e. h (ap suc e))

pub get-modify_same {ℓ κ} :
    {A : Type ℓ} {B : Type κ} (f : A → A) (g : A → Option B) (xs : List A) (i j : ℕ)
    → ((x : A) → g (f x) ≡ g x)
    → (get_elem? (modify i f xs) j >>= g) ≡ (get_elem? xs j >>= g)
get-modify_same f g [] i j h = refl
get-modify_same f g (x ∷ xs) zero zero h = h x
get-modify_same f g (x ∷ xs) zero (suc j) h = refl
get-modify_same f g (x ∷ xs) (suc i) zero h = refl
get-modify_same f g (x ∷ xs) (suc i) (suc j) h = get-modify_same f g xs i j h
