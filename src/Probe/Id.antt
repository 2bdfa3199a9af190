-- ===== src/Probe/Id.antt =====
-- state/session.rs: `ProbeId`, the pair of bytes that a probe carries.
pub mod Sequence
use ttl.Base.{ℕ, ◌*◌, ◌/◌, ◌%◌, Bool, ◌&&◌, ◌==◌}
use Prim.Native.Nat.{bit_or}

pub record ProbeId : Type 0 where
  pub ttl : ℕ
  pub seq : ℕ

-- `(ttl as u16) << 8 | seq as u16`.
unfoldable pub to_sequence : ProbeId → ℕ
to_sequence id = bit_or (id.ttl * 256) id.seq

unfoldable pub from_sequence : ℕ → ProbeId
from_sequence seq = record { ttl = seq / 256 % 256; seq = seq % 256 }

abbrev pub id_eq : ProbeId → ProbeId → Bool
id_eq a b = a.ttl == b.ttl && a.seq == b.seq
