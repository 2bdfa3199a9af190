-- ===== src/Probe/Tcp.antt =====
-- probe/tcp.rs: the SYN segment of a TCP probe, its checksum, and what is read from a quoted one.
pub mod Segment
use ttl.Base.{
  ℕ, ◌+◌, ◌-◌, ◌*◌, ◌/◌, ◌%◌, ◌^◌, Option, none, some, List, [], ◌∷◌, ◌++◌, ltb, ◌==◌, length,
  get_or, if◌then◌else◌,
}
use ttl.Base.Words.{add32}
use ttl.Base.Bytes.{Bytes, be16, be32}
use ttl.Base.Net.{IpAddr, v4, v6}
use ttl.Probe.Id.{ProbeId, to_sequence, from_sequence}
use ttl.Probe.Checksum.{fold_carries, fold_fuel}
use ttl.Probe.Udp.{pattern_from}

-- The 16-bit words of an address, in network order.
abbrev pub v4_words : ℕ → List ℕ
v4_words a = (a / 65536 % 65536) ∷ (a % 65536) ∷ []

abbrev pub v6_words : ℕ → List ℕ
v6_words a =
    (a / 2 ^ 112 % 65536)
    ∷ (a / 2 ^ 96 % 65536)
    ∷ (a / 2 ^ 80 % 65536)
    ∷ (a / 2 ^ 64 % 65536)
    ∷ (a / 2 ^ 48 % 65536)
    ∷ (a / 2 ^ 32 % 65536)
    ∷ (a / 2 ^ 16 % 65536)
    ∷ (a % 65536)
    ∷ []

unfoldable pub add_words : ℕ → List ℕ → ℕ
add_words sum [] = sum
add_words sum (w ∷ ws) = add_words (add32 sum w) ws

-- The words of a message from the word at index `i` on, without the word at index `skip`.
unfoldable pub sum_words_but : ℕ → ℕ → ℕ → Bytes → ℕ
sum_words_but skip i sum [] = sum
sum_words_but skip i sum (a ∷ []) = add32 sum (a * 256)
sum_words_but skip i sum (a ∷ b ∷ rest) =
    sum_words_but skip (i + 2) (if i == skip then sum else add32 sum (be16 a b)) rest

-- The sum that the checksum folds: both addresses, protocol, length, and the segment without the
-- checksum field.
unfoldable pub segment_sum : List ℕ → List ℕ → Bytes → ℕ
segment_sum src dst tcp_header =
    sum_words_but 16 0
      (add32 (add32 (add_words (add_words 0 src) dst) 6) (length tcp_header % 4294967296))
      tcp_header

abbrev pub complement : ℕ → ℕ
complement sum = (4294967295 - fold_carries fold_fuel sum) % 65536

unfoldable pub tcp_checksum : Bytes → IpAddr → IpAddr → ℕ
tcp_checksum tcp_header (v4 src) (v4 dst) =
    complement (segment_sum (v4_words src) (v4_words dst) tcp_header)
tcp_checksum tcp_header (v6 src) (v6 dst) =
    complement (segment_sum (v6_words src) (v6_words dst) tcp_header)
tcp_checksum tcp_header _ _ = 0

-- The segment with the 16-bit word `checksum` in bytes 16 and 17. The identity is the high half of
-- the sequence number, whose low half is zero.
pub segment : ProbeId → ℕ → ℕ → ℕ → ℕ → Bytes
segment id src_port dst_port payload_size checksum =
    let sequence = to_sequence id in
    (src_port / 256)
    ∷ (src_port % 256)
    ∷ (dst_port / 256)
    ∷ (dst_port % 256)
    ∷ (sequence / 256 % 256)
    ∷ (sequence % 256)
    ∷ 0
    ∷ 0
    ∷ 0
    ∷ 0
    ∷ 0
    ∷ 0
    ∷ 0x50
    ∷ 0x02
    ∷ 255
    ∷ 255
    ∷ (checksum / 256)
    ∷ (checksum % 256)
    ∷ 0
    ∷ 0
    ∷ pattern_from payload_size 0

pub build_tcp_syn_sized : ProbeId → ℕ → ℕ → IpAddr → IpAddr → ℕ → Bytes
unfolding segment
build_tcp_syn_sized id src_port dst_port src_ip dst_ip payload_size =
    segment id src_port dst_port payload_size
      (tcp_checksum (segment id src_port dst_port payload_size 0) src_ip dst_ip)

-- Every index below lies within the eight bytes that the test asks for.
pub extract_probe_id_from_tcp : Bytes → Option ProbeId
extract_probe_id_from_tcp tcp_header =
    if ltb (length tcp_header) 8
    then none
    else some (from_sequence (be32 (at 4) (at 5) (at 6) (at 7) / 65536))
  where
    at : ℕ → ℕ
    at i = get_or tcp_header i 0
