-- ===== src/Probe/Echo.antt =====
-- probe/icmp.rs: the Echo Request of an ICMP probe. The checksum of the packet library for ICMP over
-- IPv4, and the time in microseconds that the payload carries, are parameters.
pub mod Reply
use ttl.Base.{
  ℕ, zero, suc, ◌+◌, ◌-◌, ◌*◌, ◌/◌, ◌%◌, ◌^◌, max, Bool, true, false, Option, none, some, [], ◌∷◌,
  ◌++◌, ltb, ◌==◌, length, if◌then◌else◌,
}
use ttl.Base.Words.{add32}
use ttl.Base.Bytes.{Bytes, be16}
use ttl.Probe.Udp.{pattern_from}
use ttl.Probe.Tcp.{v6_words, add_words, sum_words_but, complement}
use ttl.Probe.RawIp.{be_bytes}

-- Addresses, the length and the protocol number, and the message without its checksum field.
pub icmp_ipv6_checksum : Bytes → ℕ → ℕ → ℕ
icmp_ipv6_checksum message src_addr dest_addr = complement (
    sum_words_but 2 0
      (add32
        (add32 (add_words (add_words 0 (v6_words src_addr)) (v6_words dest_addr))
          (length message % 4294967296))
        58)
      message)

-- The payload from byte 8 on: the marker of a path MTU probe, and the pattern.
unfoldable pub echo_tail : Bool → ℕ → Bytes
echo_tail pmtud zero = []
echo_tail pmtud (suc n) = (if pmtud then 0x50 else 0) ∷ pattern_from n 1

unfoldable pub echo_payload : ℕ → ℕ → ℕ → ℕ → Bool → Bytes
unfolding echo_tail
echo_payload identifier sequence timestamp payload_size pmtud =
    be_bytes identifier
    ++ be_bytes sequence
    ++ be_bytes (timestamp / 65536 % 65536)
    ++ be_bytes (timestamp % 65536)
    ++ echo_tail pmtud (max payload_size 8 - 8)

-- The message with the 16-bit word `cksum` in its checksum field.
abbrev pub echo_message : Bool → ℕ → ℕ → ℕ → Bytes → Bytes
echo_message ipv6 cksum identifier sequence payload =
    ((if ipv6 then 128 else 8) ∷ 0 ∷ [])
    ++ be_bytes cksum
    ++ be_bytes identifier
    ++ be_bytes sequence
    ++ payload

-- The checksum, zero if an IPv6 caller gives no addresses.
abbrev pub echo_checksum : (Bytes → ℕ) → Bool → Option (ℕ × ℕ) → Bytes → ℕ
echo_checksum checksum true (some (src, dest)) buffer = icmp_ipv6_checksum buffer src dest
echo_checksum checksum true none buffer = 0
echo_checksum checksum false ipv6_addrs buffer = checksum buffer

unfoldable pub build_echo_request :
    (Bytes → ℕ) → ℕ → ℕ → ℕ → ℕ → Bool → Option (ℕ × ℕ) → Bool → Bytes
unfolding echo_payload
build_echo_request checksum timestamp identifier sequence payload_size ipv6 ipv6_addrs pmtud =
    let payload = echo_payload identifier sequence timestamp payload_size pmtud in
    let zeroed = echo_message ipv6 0 identifier sequence payload in
    echo_message ipv6 (echo_checksum checksum ipv6 ipv6_addrs zeroed) identifier sequence payload
