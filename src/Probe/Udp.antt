-- ===== src/Probe/Udp.antt =====
-- probe/udp.rs: the payload of a UDP probe, and what is read from a quoted one.
pub mod Payload
use ttl.Base.{
  ℕ, zero, suc, ◌+◌, ◌-◌, ◌/◌, ◌%◌, max, Bool, ◌||◌, not, Option, none, some, List, [], ◌∷◌, ltb,
  ◌==◌, length, get_or, if◌then◌else◌,
}
use ttl.Base.Bytes.{Bytes, be16}
use ttl.Probe.Id.{ProbeId, to_sequence, from_sequence}

-- The pattern that fills the rest of a probe: `(i & 0xFF) as u8` from index `i` on.
unfoldable pub pattern_from : ℕ → ℕ → Bytes
pattern_from zero i = []
pattern_from (suc n) i = (i % 256) ∷ pattern_from n (i + 1)

unfoldable pub build_udp_payload_sized : ProbeId → ℕ → Bytes
build_udp_payload_sized id size =
    let sequence = to_sequence id in
    (sequence / 256 % 256)
    ∷ (sequence % 256)
    ∷ 0x54
    ∷ 0x54
    ∷ 0x4C
    ∷ 0x00
    ∷ pattern_from (max size 8 - 6) 0

unfoldable pub build_udp_payload : ProbeId → Bytes
build_udp_payload id = build_udp_payload_sized id 32

-- Every index below lies within the six bytes that the first test asks for.
unfoldable pub extract_probe_id_from_udp_payload : Bytes → Option ProbeId
extract_probe_id_from_udp_payload udp_payload =
    if ltb (length udp_payload) 6
    then none
    else if not (at 2 == 0x54) || not (at 3 == 0x54) || not (at 4 == 0x4C)
    then none
    else some (from_sequence (be16 (at 0) (at 1)))
  where
    at : ℕ → ℕ
    at i = get_or udp_payload i 0
