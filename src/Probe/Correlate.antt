-- ===== src/Probe/Correlate.antt =====
-- probe/correlate.rs: `parse_icmp_response` and the dispatch on the ICMP type.
pub mod Safe
pub mod Accepts
use ttl.Base.{
  ℕ, ◌+◌, ◌*◌, Bool, true, false, ◌&&◌, Option, none, some, ltb, leb, ◌==◌, length, get_or,
  if◌then◌else◌,
}
use ttl.Base.Bytes.{Bytes}
use ttl.Base.Net.{IpAddr, is_ipv6}
use ttl.Probe.Checksum.{validate_icmp_checksum}
use ttl.Probe.Outcome.{
  Outcome, parsed, rejected, ◌>>=◌, ◌>>◌, require, or_reject, byte, slice_from, slice, be16_at,
  be_number,
}
use ttl.Probe.Response.{
  IcmpResponseType, time_exceeded, dest_unreachable, packet_too_big, ParsedResponse, Library,
  parse_echo_reply,
}
use ttl.Probe.Quoted.{
  parse_icmp_error_payload_v4_with_mtu, parse_icmp_error_payload_v4_dgram,
  parse_icmp_error_payload_v6_with_mtu, parse_icmp_error_payload_v6_dgram,
}
use ttl.Probe.Quoted.Walk.{skip_ipv6_extension_headers}

abbrev positive : ℕ → Option ℕ
positive mtu_val = if ltb 0 mtu_val then some mtu_val else none

-- The MTU of a Fragmentation Needed message (code 4).
pub frag_needed_mtu : ℕ → Bytes → Outcome (Option ℕ)
frag_needed_mtu icmp_code icmp_data = elim (icmp_code == 4 && leb 8 (length icmp_data)) [
  | false ↦ parsed none
  | true ↦ do mtu_val ← be16_at icmp_data 6; parsed (positive mtu_val)
]

-- The MTU of a Packet Too Big message, if it is a u16.
pub too_big_mtu : Bytes → Outcome (Option ℕ)
too_big_mtu icmp_data = elim (leb 8 (length icmp_data)) [
  | false ↦ parsed none
  | true ↦ do
    bytes ← slice icmp_data 4 8
    let mtu_val : ℕ = be_number 0 bytes
    parsed (if ltb 0 mtu_val && leb mtu_val 65535 then some mtu_val else none)
]

-- What one of the four error parsers is given.
abbrev pub ErrorParser : Type 0
ErrorParser = Bytes → IpAddr → ℕ → IcmpResponseType → Option ℕ → Outcome ParsedResponse

-- The dispatch on the type of an ICMP message (RFC 792), and of an ICMPv6 message (RFC 4443).
unfoldable pub dispatch_v4 : ErrorParser → ℕ → ℕ → Bytes → IpAddr → ℕ → Outcome ParsedResponse
dispatch_v4 parse_error icmp_type icmp_code icmp_data responder our_identifier =
    if icmp_type == 0
    then (require (validate_icmp_checksum icmp_data)
        >> parse_echo_reply icmp_data responder our_identifier)
    else if icmp_type == 11
    then parse_error icmp_data responder our_identifier (time_exceeded icmp_code) none
    else if icmp_type == 3
    then (frag_needed_mtu icmp_code icmp_data
        >>= parse_error icmp_data responder our_identifier (dest_unreachable icmp_code))
    else rejected

unfoldable pub dispatch_v6 : ErrorParser → ℕ → ℕ → Bytes → IpAddr → ℕ → Outcome ParsedResponse
dispatch_v6 parse_error icmp_type icmp_code icmp_data responder our_identifier =
    if icmp_type == 129
    then parse_echo_reply icmp_data responder our_identifier
    else if icmp_type == 2
    then (too_big_mtu icmp_data >>= parse_error icmp_data responder our_identifier packet_too_big)
    else if icmp_type == 3
    then parse_error icmp_data responder our_identifier (time_exceeded icmp_code) none
    else if icmp_type == 1
    then parse_error icmp_data responder our_identifier (dest_unreachable icmp_code) none
    else rejected

module _ (lib : Library) where
  pub parse_icmp_response_v4 : Bytes → IpAddr → ℕ → Outcome ParsedResponse
  parse_icmp_response_v4 bytes responder our_identifier = do
    ip ← or_reject (lib.ipv4_packet bytes)
    require (leb (ip.header_length * 4 + 8) (length bytes))
    icmp_data ← slice_from bytes (ip.header_length * 4)
    icmp ← or_reject (lib.icmp_packet icmp_data)
    dispatch_v4 (parse_icmp_error_payload_v4_with_mtu lib) icmp.icmp_type icmp.icmp_code icmp_data
        responder our_identifier

  unfoldable pub parse_icmp_response_v4_dgram : Bytes → IpAddr → ℕ → Outcome ParsedResponse
  parse_icmp_response_v4_dgram icmp_data responder our_identifier = do
    require (leb 8 (length icmp_data))
    icmp_type ← byte icmp_data 0
    icmp_code ← byte icmp_data 1
    dispatch_v4 (parse_icmp_error_payload_v4_dgram lib) icmp_type icmp_code icmp_data responder
        our_identifier

  -- Not called by `parse_icmp_response`; kept in the source for other platforms.
  unfoldable pub parse_icmp_response_v6 : Bytes → IpAddr → ℕ → Outcome ParsedResponse
  parse_icmp_response_v6 bytes responder our_identifier = do
    walked ← skip_ipv6_extension_headers bytes
    icmp_offset ← or_reject walked
    require (leb (icmp_offset + 8) (length bytes))
    icmp_data ← slice_from bytes icmp_offset
    icmp_type ← byte icmp_data 0
    icmp_code ← byte icmp_data 1
    dispatch_v6 (parse_icmp_error_payload_v6_with_mtu lib) icmp_type icmp_code icmp_data responder
        our_identifier

  unfoldable pub parse_icmp_response_v6_dgram : Bytes → IpAddr → ℕ → Outcome ParsedResponse
  parse_icmp_response_v6_dgram icmp_data responder our_identifier = do
    require (leb 8 (length icmp_data))
    icmp_type ← byte icmp_data 0
    icmp_code ← byte icmp_data 1
    dispatch_v6 (parse_icmp_error_payload_v6_dgram lib) icmp_type icmp_code icmp_data responder
        our_identifier

  unfoldable pub parse_icmp_response : Bytes → IpAddr → ℕ → Bool → Outcome ParsedResponse
  parse_icmp_response bytes responder our_identifier is_dgram =
      if length bytes == 0
      then rejected
      else if is_dgram
      then if is_ipv6 responder
        then parse_icmp_response_v6_dgram bytes responder our_identifier
        else parse_icmp_response_v4_dgram bytes responder our_identifier
      else if is_ipv6 responder
      then parse_icmp_response_v6_dgram bytes responder our_identifier
      else parse_icmp_response_v4 bytes responder our_identifier
