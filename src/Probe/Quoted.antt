-- ===== src/Probe/Quoted.antt =====
-- probe/correlate.rs: ICMP errors, which quote the probe. The parsers for raw sockets and those for
-- datagram sockets have the same text; so have they here one definition for each family.
pub mod Walk
pub mod Safe
use ttl.Base.{ℕ, ◌+◌, ◌*◌, Bool, true, false, Option, none, some, leb, ◌==◌, length, if◌then◌else◌}
use ttl.Base.Bytes.{Bytes}
use ttl.Base.Net.{IpAddr, v6}
use ttl.Probe.Id.{ProbeId, from_sequence}
use ttl.Probe.Udp.{extract_probe_id_from_udp_payload}
use ttl.Probe.Tcp.{extract_probe_id_from_tcp}
use ttl.Probe.Extensions.{ParsedIcmpExtensions, parse_icmp_extensions}
use ttl.Probe.Response.{IcmpResponseType, ParsedResponse, Library, extract_id_from_payload}
use ttl.Probe.Outcome.{
  Outcome, parsed, rejected, ◌>>=◌, ◌>>◌, require, or_reject, byte, slice_from, slice, be16_at,
  be_number,
}
use Walk.{skip_ipv6_ext_headers_quoted}

-- What an error says beside the probe's identity and source port.
pub record Quote : Type 0 where
  pub responder : IpAddr
  pub response_type : IcmpResponseType
  pub mtu : Option ℕ
  pub exts : ParsedIcmpExtensions
  pub quoted_ttl : ℕ
  pub original_dest : IpAddr

abbrev pub quoting : Quote → ProbeId → Option ℕ → ParsedResponse
quoting q probe_id src_port = record {
  responder = q.responder;
  probe_id = probe_id;
  response_type = q.response_type;
  is_pmtud = false;
  mpls_labels = q.exts.mpls_labels;
  interface_info = q.exts.interface_info;
  src_port = src_port;
  mtu = q.mtu;
  quoted_ttl = some q.quoted_ttl;
  original_dest = some q.original_dest;
}

-- A quoted Echo Request, of the type number `request`.
pub quoted_echo : ℕ → Quote → ℕ → Bytes → Outcome ParsedResponse
quoted_echo request q our_identifier original_payload = do
  kind ← byte original_payload 0
  require (kind == request)
  identifier ← be16_at original_payload 4
  sequence ← be16_at original_payload 6
  elim (identifier == our_identifier) [
    | true ↦ parsed (quoting q (from_sequence sequence) none)
    | false ↦ do
      require (leb 12 (length original_payload))
      payload ← slice_from original_payload 8
      payload_seq ← extract_id_from_payload payload our_identifier
      parsed (quoting q (from_sequence payload_seq) none)
  ]

pub quoted_tcp : Quote → Bytes → Outcome ParsedResponse
quoted_tcp q original_payload = do
  require (leb 8 (length original_payload))
  src_port ← be16_at original_payload 0
  probe_id ← or_reject (extract_probe_id_from_tcp original_payload)
  parsed (quoting q probe_id (some src_port))

unfoldable pub quoted_udp : Quote → Bytes → Outcome ParsedResponse
quoted_udp q original_payload = do
  require (leb 14 (length original_payload))
  src_port ← be16_at original_payload 0
  udp_payload ← slice_from original_payload 8
  probe_id ← or_reject (extract_probe_id_from_udp_payload udp_payload)
  parsed (quoting q probe_id (some src_port))

unfoldable pub quoted_v4 : Quote → ℕ → ℕ → Bytes → Outcome ParsedResponse
quoted_v4 q our_identifier protocol original_payload =
    if protocol == 1
    then quoted_echo 8 q our_identifier original_payload
    else if protocol == 6
    then quoted_tcp q original_payload
    else if protocol == 17
    then quoted_udp q original_payload
    else rejected

unfoldable pub quoted_v6 : Quote → ℕ → ℕ → Bytes → Outcome ParsedResponse
quoted_v6 q our_identifier next_header original_payload =
    if next_header == 58
    then (require (leb 8 (length original_payload))
        >> quoted_echo 128 q our_identifier original_payload)
    else if next_header == 6
    then quoted_tcp q original_payload
    else if next_header == 17
    then quoted_udp q original_payload
    else rejected

abbrev or_pair : Option (ℕ × ℕ) → ℕ × ℕ → ℕ × ℕ
or_pair none d = d
or_pair (some p) d = p

module _ (lib : Library) where
  unfoldable pub parse_icmp_error_payload_v4_with_mtu :
      Bytes → IpAddr → ℕ → IcmpResponseType → Option ℕ → Outcome ParsedResponse
  parse_icmp_error_payload_v4_with_mtu icmp_data responder our_identifier response_type mtu = do
    require (leb 36 (length icmp_data))
    icmp_length ← byte icmp_data 5
    original_ip_data ← slice_from icmp_data 8
    ip ← or_reject (lib.ipv4_packet original_ip_data)
    require (leb (ip.header_length * 4 + 8) (length original_ip_data))
    original_payload ← slice_from original_ip_data (ip.header_length * 4)
    exts ← parse_icmp_extensions lib.text original_ip_data icmp_length false
    quoted_v4
        (record {
          responder = responder;
          response_type = response_type;
          mtu = mtu;
          exts = exts;
          quoted_ttl = ip.ttl;
          original_dest = ip.destination;
        })
        our_identifier ip.protocol original_payload

  -- The transport header at the offset `at.0` of the quoted packet, of the protocol `at.1`.
  unfoldable pub quoted_v6_at :
      Bytes → ℕ → ℕ × ℕ → ℕ → (ParsedIcmpExtensions → Quote) → Outcome ParsedResponse
  quoted_v6_at original_ipv6_data icmp_length at our_identifier quote = do
    require (leb at.0 (length original_ipv6_data))
    original_payload ← slice_from original_ipv6_data at.0
    exts ← parse_icmp_extensions lib.text original_ipv6_data icmp_length true
    quoted_v6 (quote exts) our_identifier at.1 original_payload

  unfoldable pub parse_icmp_error_payload_v6_with_mtu :
      Bytes → IpAddr → ℕ → IcmpResponseType → Option ℕ → Outcome ParsedResponse
  parse_icmp_error_payload_v6_with_mtu icmp_data responder our_identifier response_type mtu = do
    require (leb 56 (length icmp_data))
    icmp_length ← byte icmp_data 4
    original_ipv6_data ← slice_from icmp_data 8
    next_header ← byte original_ipv6_data 6
    quoted_ttl ← byte original_ipv6_data 7
    destination ← slice original_ipv6_data 24 40
    walked ← skip_ipv6_ext_headers_quoted original_ipv6_data
    quoted_v6_at original_ipv6_data icmp_length (or_pair walked (40, next_header)) our_identifier
        (λ exts. record {
          responder = responder;
          response_type = response_type;
          mtu = mtu;
          exts = exts;
          quoted_ttl = quoted_ttl;
          original_dest = v6 (be_number 0 destination);
        })

  -- The same text in the source, for sockets that deliver no IP header.
  unfoldable pub parse_icmp_error_payload_v4_dgram :
      Bytes → IpAddr → ℕ → IcmpResponseType → Option ℕ → Outcome ParsedResponse
  unfolding parse_icmp_error_payload_v4_with_mtu
  parse_icmp_error_payload_v4_dgram = parse_icmp_error_payload_v4_with_mtu

  unfoldable pub parse_icmp_error_payload_v6_dgram :
      Bytes → IpAddr → ℕ → IcmpResponseType → Option ℕ → Outcome ParsedResponse
  unfolding parse_icmp_error_payload_v6_with_mtu
  parse_icmp_error_payload_v6_dgram = parse_icmp_error_payload_v6_with_mtu
