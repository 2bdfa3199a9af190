-- ===== src/Probe/Mpls.antt =====
-- state/session.rs: `MplsLabel`, and the label stack object of probe/correlate.rs (RFC 4950).
pub mod Stack
use ttl.Base.{ℕ, ◌/◌, ◌%◌, Bool, true, false, List, [], ◌∷◌, ◌==◌}
use ttl.Base.Bytes.{Bytes, be32}

pub record MplsLabel : Type 0 where
  pub label : ℕ
  pub exp : ℕ
  pub bottom : Bool
  pub ttl : ℕ

-- `MplsLabel::from_bytes` at the four bytes of an entry.
pub from_bytes : ℕ → ℕ → ℕ → ℕ → MplsLabel
from_bytes a b c d =
    let word = be32 a b c d in
    record {
      label = word / 4096;
      exp = word / 512 % 8 % 256;
      bottom = word / 256 % 2 == 1;
      ttl = word % 256;
    }

-- The loop over the complete four-byte chunks, which stops behind a bottom-of-stack entry.
pub stack_labels : Bytes → List MplsLabel
stack_labels (a ∷ b ∷ c ∷ d ∷ rest) =
    let label = from_bytes a b c d in
    let deeper = stack_labels rest in label ∷ elim label.bottom [ true ↦ [] | false ↦ deeper ]
stack_labels _ = []
