-- ===== src/State/Nat.antt =====
-- state/session.rs: `NatInfo`, the source ports that came back unchanged or rewritten.
pub mod Samples
use ttl.Base.{
  ℕ, ◌+◌, Bool, Option, none, some, List, [], ◌∷◌, ◌++◌, ltb, ◌==◌, length, if◌then◌else◌,
}
use ttl.Base.Words.{add64}
use ttl.Base.Float.{Float}

pub record NatInfo : Type 0 where
  pub port_matched : ℕ
  pub port_rewritten : ℕ
  pub rewrite_samples : List (ℕ × ℕ)

abbrev pub no_info : NatInfo
no_info = record { port_matched = 0; port_rewritten = 0; rewrite_samples = [] }

pub record_match : NatInfo → NatInfo
record_match n = record n { port_matched = add64 n.port_matched 1 }

pub record_rewrite : NatInfo → ℕ → ℕ → NatInfo
record_rewrite n original returned = record n {
  port_rewritten = add64 n.port_rewritten 1;
  rewrite_samples =
      if ltb (length n.rewrite_samples) 10
      then n.rewrite_samples ++ ((original, returned) ∷ [])
      else n.rewrite_samples;
}

pub has_nat : NatInfo → Bool
has_nat n = ltb 0 n.port_rewritten

pub total_checks : NatInfo → ℕ
total_checks n = add64 n.port_matched n.port_rewritten

module _ (f64 : Float) where
  open f64 use {F64, of_nat, fdiv, fmul, literal}

  pub nat_percentage : NatInfo → F64
  nat_percentage n =
      let total : ℕ = add64 n.port_matched n.port_rewritten in
      if total == 0
      then literal 0 1
      else fmul (fdiv (of_nat n.port_rewritten) (of_nat total)) (literal 100 1)

abbrev pub or_no_info : Option NatInfo → NatInfo
or_no_info none = no_info
or_no_info (some n) = n

-- `Hop::record_nat_check`, on the field `nat_info` of the hop.
unfoldable pub record_nat_check : Option NatInfo → Option ℕ → Option ℕ → Option NatInfo
unfolding record_match record_rewrite
record_nat_check n (some orig) (some ret) =
    if orig == ret
    then some (record_match (or_no_info n))
    else some (record_rewrite (or_no_info n) orig ret)
record_nat_check n _ _ = n
