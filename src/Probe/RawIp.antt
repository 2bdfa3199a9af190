-- ===== src/Probe/RawIp.antt =====
-- probe/rawip.rs: the IPv4 packets of a probe that are built by hand.
pub mod Verify
pub mod Quoted
use ttl.Base.{
  ℕ, ◌+◌, ◌*◌, ◌/◌, ◌%◌, ◌^◌, Bool, true, false, Option, none, some, [], ◌∷◌, ◌++◌, ltb, ◌==◌,
  length, if◌then◌else◌,
}
use ttl.Base.Bytes.{Bytes}
use ttl.Probe.Checksum.{internet_checksum}

-- `to_be_bytes` of a u16.
abbrev pub be_bytes : ℕ → Bytes
be_bytes value = (value / 256) ∷ (value % 256) ∷ []

-- The octets of an `Ipv4Addr`.
abbrev pub octets : ℕ → Bytes
octets a = (a / 16777216 % 256) ∷ (a / 65536 % 256) ∷ (a / 256 % 256) ∷ (a % 256) ∷ []

-- In the order of a little-endian host, or in network order.
abbrev pub encode_len_off : ℕ → Bool → Bytes
encode_len_off value host_order =
    if host_order then (value % 256) ∷ (value / 256) ∷ [] else be_bytes value

-- `host_order` is the constant `HDRINCL_HOST_ORDER_LEN_OFF` of the target system.
unfoldable pub build_ipv4_header : Bool → ℕ → ℕ → ℕ → ℕ → ℕ → ℕ → ℕ → Bool → Bytes
build_ipv4_header host_order src dst protocol ttl tos total_len identification dont_fragment =
    let frag_off : ℕ = if dont_fragment then 0x4000 else 0 in
    (0x45 ∷ tos ∷ [])
    ++ encode_len_off total_len host_order
    ++ be_bytes identification
    ++ encode_len_off frag_off host_order
    ++ (ttl ∷ protocol ∷ 0 ∷ 0 ∷ [])
    ++ octets src
    ++ octets dst

-- The pseudo-header of a datagram of `udp_len` bytes.
abbrev pub pseudo_header : ℕ → ℕ → ℕ → Bytes
pseudo_header src dst udp_len =
    octets src ++ octets dst ++ (0 ∷ 17 ∷ []) ++ be_bytes (udp_len % 65536)

pub udp_checksum_v4 : ℕ → ℕ → Bytes → ℕ
udp_checksum_v4 src dst udp = internet_checksum (pseudo_header src dst (length udp) ++ udp)

-- A datagram with the 16-bit word `checksum` in its checksum field.
abbrev pub datagram : ℕ → ℕ → ℕ → Bytes → Bytes
datagram src_port dst_port checksum payload =
    be_bytes src_port
    ++ be_bytes dst_port
    ++ be_bytes ((8 + length payload) % 65536)
    ++ be_bytes checksum
    ++ payload

unfoldable pub build_udp_datagram : ℕ → ℕ → ℕ → ℕ → Bytes → Bytes
unfolding udp_checksum_v4
build_udp_datagram src dst src_port dst_port payload =
    let cksum = udp_checksum_v4 src dst (datagram src_port dst_port 0 payload) in
    datagram src_port dst_port (if cksum == 0 then 0xFFFF else cksum) payload

-- None for the error "IPv4 packet too large".
unfoldable pub build_ipv4_packet : Bool → ℕ → ℕ → ℕ → ℕ → ℕ → Bool → Bytes → Option Bytes
unfolding build_ipv4_header
build_ipv4_packet host_order src dst protocol ttl tos dont_fragment transport =
    let total_payload = 20 + length transport in
    if ltb 65535 total_payload
    then none
    else some (
        build_ipv4_header host_order src dst protocol ttl tos total_payload 0 dont_fragment
        ++ transport)
