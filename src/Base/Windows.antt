-- ===== src/Base/Windows.antt =====
-- Rolling windows: `push_back`, and `pop_front` once there are more than `n` entries.
use Prim.Native.Nat.{ℕ, zero, suc, ◌+◌, ◌-◌, ◌≤◌}
use mathlib.Core.Path.{◌≡◌, refl}
use mathlib.Core.List.{List, [], ◌∷◌, ◌++◌, append-nil, append_assoc}
use native.Mathlib.Omega.{arith}
use ttl.Base.Tests.{ltb, if◌then◌else◌}
use ttl.Base.Lists.{length, drop, length-append, length-drop}

module _ {ℓ} {A : Type ℓ} where
  unfoldable pub push_capped : ℕ → List A → A → List A
  push_capped n xs x = let ys = xs ++ (x ∷ []) in if ltb n (length ys) then drop 1 ys else ys

  -- The last `n` entries.
  unfoldable pub last : ℕ → List A → List A
  last n xs = drop (length xs - n) xs

module _ {A : Type 0} where
  pub length-push_capped :
      (n : ℕ) (xs : List A) (x : A) → length xs ≤ n → length (push_capped n xs x) ≤ n
  unfolding push_capped
  length-push_capped n xs x h =
      ground (arith, length-append xs (x ∷ []), length-drop 1 (xs ++ (x ∷ [])))

  drop-append_le : (k : ℕ) (xs ys : List A) → k ≤ length xs → drop k (xs ++ ys) ≡ drop k xs ++ ys
  drop-append_le zero xs ys h = refl
  drop-append_le (suc k) [] ys h = absurd (omega arith)
  drop-append_le (suc k) (x ∷ xs) ys h = drop-append_le k xs ys (omega arith)

  drop-drop : (k : ℕ) (xs : List A) → drop 1 (drop k xs) ≡ drop (k + 1) xs
  drop-drop zero [] = refl
  drop-drop zero (x ∷ xs) = refl
  drop-drop (suc k) [] = let e : suc k + 1 ≡ suc (suc k) = omega arith in rw e
  drop-drop (suc k) (x ∷ xs) =
      let e : suc k + 1 ≡ suc (k + 1) = omega arith in rw e (drop-drop k xs)

  drop_eq : (k j : ℕ) (xs : List A) → k ≡ j → drop k xs ≡ drop j xs
  drop_eq k j xs e = rw e

  -- A window that holds the last `n` entries of a history still does after a push.
  pub push_capped-last :
      (n : ℕ) (xs : List A) (x : A) → push_capped n (last n xs) x ≡ last n (xs ++ (x ∷ []))
  unfolding push_capped last
  push_capped-last n xs x =
      let ys = xs ++ (x ∷ []) in
      let k = length xs - n in
      rw (← drop-append_le k xs (x ∷ []) (omega arith)) (
        ground (
          arith,
          length-append xs (x ∷ []),
          length-drop k ys,
          drop-drop k ys,
          drop_eq k 0 ys,
          drop_eq (k + 1) (length ys - n) ys,
          drop_eq 0 (length ys - n) ys,
        ))

  -- All the pushes of a history.
  unfoldable pub pushes : ℕ → List A → List A → List A
  pushes n xs [] = xs
  pushes n xs (x ∷ more) = pushes n (push_capped n xs x) more

  pub pushes-last : (n : ℕ) (xs more : List A) → pushes n (last n xs) more ≡ last n (xs ++ more)
  unfolding pushes
  pushes-last n xs [] = rw append-nil
  pushes-last n xs (x ∷ more) =
      rw (push_capped-last n xs x, pushes-last n (xs ++ (x ∷ [])) more, append_assoc)
