-- ===== src/Base/Float.antt =====
-- Rust's `f64`, which the development takes as a parameter: the type with the operations that the
-- code calls, and no law. `literal n d` is the constant n / d that the source writes in decimals.
use Prim.Native.Nat.{ℕ, ◌+◌, ◌-◌, ◌*◌, ◌/◌, min, max}
use ttl.Base.Tests.{ltb, leb}
use mathlib.Core.Bool.{Bool}

pub record Float : Type 1 where
  pub F64 : Type 0
  pub of_nat : ℕ → F64
  pub literal : ℕ → ℕ → F64
  pub fadd : F64 → F64 → F64
  pub fsub : F64 → F64 → F64
  pub fmul : F64 → F64 → F64
  pub fdiv : F64 → F64 → F64
  pub fabs : F64 → F64
  pub fsqrt : F64 → F64
  pub fmin : F64 → F64 → F64
  pub fmax : F64 → F64 → F64
  pub flt : F64 → F64 → Bool
  pub fle : F64 → F64 → Bool
  -- `x as u64`, and `x.round() as usize`.
  pub to_u64 : F64 → ℕ
  pub round : F64 → ℕ

-- Numbers rounded down, in thousandths: enough to run the code on examples.
abbrev pub thousandths : Float
thousandths = record {
  F64 = ℕ;
  of_nat = λ n. n * 1000;
  literal = λ n d. n * 1000 / d;
  fadd = λ a b. a + b;
  fsub = λ a b. a - b;
  fmul = λ a b. a * b / 1000;
  fdiv = λ a b. a * 1000 / b;
  fabs = λ a. a;
  fsqrt = λ a. a;
  fmin = min;
  fmax = max;
  flt = ltb;
  fle = leb;
  to_u64 = λ a. a / 1000;
  round = λ a. (a + 500) / 1000;
}
