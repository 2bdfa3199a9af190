-- ===== src/Probe/Udp/Payload.antt =====
-- A UDP probe's payload gives its identity back, and is as long as was asked for.
use ttl.Base.{ℕ, zero, suc, ◌+◌, ◌-◌, ◌<◌, ◌≡◌, max, some, length, arith}
use ttl.Base.Bytes.{AreBytes}
use ttl.Probe.Id.{ProbeId}
use ttl.Probe.Id.Sequence.{to_sequence-eq, from_sequence-to_sequence}
use ttl.Probe.Udp.{pattern_from, build_udp_payload_sized, extract_probe_id_from_udp_payload}

pub length-pattern_from : (n i : ℕ) → length (pattern_from n i) ≡ n
unfolding pattern_from
length-pattern_from zero i = omega arith
length-pattern_from (suc n) i = omega (arith, length-pattern_from n (i + 1))

pub pattern_from-AreBytes : (n i : ℕ) → AreBytes (pattern_from n i)
unfolding pattern_from
pattern_from-AreBytes zero i = tt
pattern_from-AreBytes (suc n) i = (omega arith, pattern_from-AreBytes n (i + 1))

-- A payload has the size asked for, but at least eight bytes.
pub length-build_udp_payload_sized :
    (id : ProbeId) (size : ℕ) → length (build_udp_payload_sized id size) ≡ max size 8
unfolding build_udp_payload_sized
length-build_udp_payload_sized id size = omega (arith, length-pattern_from (max size 8 - 6) 0)

-- Reading the payload built for a probe whose identity is two bytes, of whatever size, gives that
-- identity back.
pub extract-build_udp_payload_sized :
    (id : ProbeId) (size : ℕ)
    → id.ttl < 256
    → id.seq < 256
    → extract_probe_id_from_udp_payload (build_udp_payload_sized id size) ≡ some id
unfolding extract_probe_id_from_udp_payload build_udp_payload_sized
extract-build_udp_payload_sized id size ht hs = ground (
  arith,
  to_sequence-eq id ht hs,
  from_sequence-to_sequence id ht hs,
  length-pattern_from (max size 8 - 6) 0,
)
