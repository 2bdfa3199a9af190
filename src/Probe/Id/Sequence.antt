-- ===== src/Probe/Id/Sequence.antt =====
-- A probe's identity survives its way through the 16-bit sequence field.
use Prim.Native.Nat.{bit_or}
use ttl.Base.{ℕ, ◌+◌, ◌*◌, ◌<◌, ◌≡◌, refl, Bool, true, ◌==◌, ==_iff, arith}
use ttl.Base.Finite.{every, at_every}
use ttl.Probe.Id.{ProbeId, to_sequence, from_sequence}

abbrev beside : ℕ → ℕ → Bool
beside t s = bit_or (t * 256) s == t * 256 + s

beside_each : every (λ t. every (beside t) 256) 256 ≡ true
unfolding every
beside_each = refl

-- Two bytes side by side: `|` of disjoint bits is a sum.
pub or-eq-add : (t s : ℕ) → t < 256 → s < 256 → bit_or (t * 256) s ≡ t * 256 + s
or-eq-add t s ht hs =
    let row = at_every (λ t. every (beside t) 256) t 256 ht beside_each in
    (==_iff _ _).0 (at_every (beside t) s 256 hs row)

pub to_sequence-eq :
    (id : ProbeId) → id.ttl < 256 → id.seq < 256 → to_sequence id ≡ id.ttl * 256 + id.seq
unfolding to_sequence
to_sequence-eq id ht hs = or-eq-add id.ttl id.seq ht hs

-- Decoding an encoded identity gives it back, for every time to live and sequence number of a byte.
pub from_sequence-to_sequence :
    (id : ProbeId) → id.ttl < 256 → id.seq < 256 → from_sequence (to_sequence id) ≡ id
unfolding from_sequence
from_sequence-to_sequence id ht hs = ground (arith, to_sequence-eq id ht hs)

-- Encoding a decoded sequence number gives it back, for every 16-bit number.
pub to_sequence-from_sequence : (n : ℕ) → n < 65536 → to_sequence (from_sequence n) ≡ n
unfolding from_sequence
to_sequence-from_sequence n h = ground (arith, to_sequence-eq (from_sequence n))
