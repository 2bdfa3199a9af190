-- ===== src/Base/Finite.antt =====
-- Facts about all values of a small range, by evaluation.
use Prim.Native.Nat.{ℕ, zero, suc, ◌<◌}
use mathlib.Core.Path.{◌≡◌}
use mathlib.Core.Bool.{Bool, true, ◌&&◌}
use native.Mathlib.Omega.{arith}

-- The test passes for each number below the bound.
unfoldable pub every : (ℕ → Bool) → ℕ → Bool
every test zero = true
every test (suc bound) = every test bound && test bound

pub at_every : (test : ℕ → Bool) (i bound : ℕ) → i < bound → every test bound ≡ true → test i ≡ true
unfolding every
at_every test i zero below passed = absurd (omega arith)
at_every test i (suc bound) below passed = ground (arith, at_every test i bound)
