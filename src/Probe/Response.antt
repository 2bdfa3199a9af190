-- ===== src/Probe/Response.antt =====
-- probe/correlate.rs and state/session.rs: what a parsed response says, and the identifier that
-- a payload carries.
use ttl.Base.{ℕ, Bool, true, false, ◌&&◌, Option, none, some, List, ltb, leb, ◌==◌, length, get_or}
use ttl.Base.Bytes.{Bytes}
use ttl.Base.Net.{IpAddr}
use ttl.Probe.Id.{ProbeId, from_sequence}
use ttl.Probe.Mpls.{MplsLabel}
use ttl.Probe.Extensions.Interface.{IcmpInterfaceInfo}
use ttl.Probe.Outcome.{Outcome, parsed, ◌>>=◌, ◌>>◌, require, slice_from, be16_at}

pub data IcmpResponseType : Type 0 where
  echo_reply : IcmpResponseType
  time_exceeded dest_unreachable : ℕ → IcmpResponseType
  packet_too_big : IcmpResponseType

pub record ParsedResponse : Type 0 where
  pub responder : IpAddr
  pub probe_id : ProbeId
  pub response_type : IcmpResponseType
  pub is_pmtud : Bool
  pub mpls_labels : Option (List MplsLabel)
  pub interface_info : Option (List IcmpInterfaceInfo)
  pub src_port : Option ℕ
  pub mtu : Option ℕ
  pub quoted_ttl : Option ℕ
  pub original_dest : Option IpAddr

-- What the pnet crate reads from the front of a packet: `Ipv4Packet::new` with its getters (the
-- header length in 32-bit words), and `IcmpPacket::new` with its getters.
pub record Ipv4Header : Type 0 where
  pub header_length : ℕ
  pub protocol : ℕ
  pub ttl : ℕ
  pub destination : IpAddr

pub record IcmpHeader : Type 0 where
  pub icmp_type : ℕ
  pub icmp_code : ℕ

-- The code that the parsers call and that this repository does not hold: pnet's packets, and the
-- decoding of interface names.
pub record Library : Type 0 where
  pub ipv4_packet : Bytes → Option Ipv4Header
  pub icmp_packet : Bytes → Option IcmpHeader
  pub text : Bytes → Bytes

-- The sequence number beside the identifier in a payload, if the identifier is ours.
unfoldable pub extract_id_from_payload : Bytes → ℕ → Outcome ℕ
extract_id_from_payload payload our_identifier = do
  require (leb 4 (length payload))
  payload_id ← be16_at payload 0
  payload_seq ← be16_at payload 2
  require (payload_id == our_identifier)
  parsed payload_seq

-- `payload.len() > 8 && payload[8] == PMTUD_MARKER`
abbrev pub is_pmtud_payload : Bytes → Bool
is_pmtud_payload payload = ltb 8 (length payload) && get_or payload 8 0 == 0x50

abbrev pub reply : IpAddr → ℕ → Bytes → ParsedResponse
reply responder sequence payload = record {
  responder = responder;
  probe_id = from_sequence sequence;
  response_type = echo_reply;
  is_pmtud = is_pmtud_payload payload;
  mpls_labels = none;
  interface_info = none;
  src_port = none;
  mtu = none;
  quoted_ttl = none;
  original_dest = some responder;
}

-- An Echo Reply: by the identifier in the header, or else by the one in the payload.
unfoldable pub parse_echo_reply : Bytes → IpAddr → ℕ → Outcome ParsedResponse
parse_echo_reply icmp_data responder our_identifier = do
  identifier ← be16_at icmp_data 4
  sequence ← be16_at icmp_data 6
  elim (identifier == our_identifier) [
    | true ↦ do payload ← slice_from icmp_data 8; parsed (reply responder sequence payload)
    | false ↦ do
      require (leb 12 (length icmp_data))
      payload ← slice_from icmp_data 8
      payload_seq ← extract_id_from_payload payload our_identifier
      parsed (reply responder payload_seq payload)
  ]
