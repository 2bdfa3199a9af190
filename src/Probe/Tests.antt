-- ===== src/Probe/Tests.antt =====
-- The theorems on probes and responses, applied to small packets.
use ttl.Base.{
  ◌/◌, ◌%◌, ◌≤◌, ◌≡◌, refl, ◌⊎◌, Bool, true, false, none, some, [], ◌∷◌, ◌++◌, arith, ltb, length,
  get_or, take, drop, if◌then◌else◌,
}
use ttl.Base.Bytes.{Bytes, be16, be32}
use ttl.Base.Net.{v4, v6}
use ttl.Probe.Id.{ProbeId, from_sequence}
use ttl.Probe.Outcome.{parsed, succeeds, is_safe, be_number, slice_from, byte, be16_at, slice}
use ttl.Probe.Checksum.{sum_words, fold_carries, internet_checksum, validate_icmp_checksum}
use ttl.Probe.Checksum.Verify.{validate-internet_checksum}
use ttl.Probe.Mpls.{MplsLabel, stack_labels}
use ttl.Probe.Mpls.Stack.{encode_stack, stack_labels-encode_stack}
use ttl.Probe.Extensions.Interface.{
  IcmpInterfaceInfo, incoming_ip, parse_interface, read_if_index, read_address, read_name, read_mtu,
}
use ttl.Probe.Extensions.{parse_icmp_extensions, parse_objects, parse_object}
use ttl.Probe.Extensions.Total.{parse_icmp_extensions-succeeds}
use ttl.Probe.Extensions.Roles.{role_count, parse_icmp_extensions-roles}
use ttl.Probe.Response.{ParsedResponse, Library, time_exceeded, echo_reply, parse_echo_reply}
use ttl.Probe.Udp.{build_udp_payload_sized}
use ttl.Probe.Tcp.{build_tcp_syn_sized, extract_probe_id_from_tcp}
use ttl.Probe.Tcp.Segment.{extract-build_tcp_syn_sized}
use ttl.Probe.Correlate.{parse_icmp_response, parse_icmp_response_v4_dgram, dispatch_v4}
use ttl.Probe.Correlate.Safe.{parse_icmp_response-is_safe}
use ttl.Probe.Correlate.Accepts.{word_at, udp_header, echo_reply_v4-ours, time_exceeded_v6-matches}

-- A reader of IPv4 and ICMP headers in the place of the packet library.
abbrev pub reader : Library
reader = record {
  ipv4_packet = λ bs.
      if ltb (length bs) 20
      then none
      else some (record {
        header_length = get_or bs 0 0 % 16;
        protocol = get_or bs 9 0;
        ttl = get_or bs 8 0;
        destination = v4 (be32 (get_or bs 16 0) (get_or bs 17 0) (get_or bs 18 0) (get_or bs 19 0));
      });
  icmp_packet = λ bs.
      if ltb (length bs) 4
      then none
      else some (record { icmp_type = get_or bs 0 0; icmp_code = get_or bs 1 0 });
  text = λ bs. bs;
}

abbrev pub probe : ProbeId
probe = record { ttl = 5; seq = 3 }

-- An Echo Reply with the identifier 0x1234, the sequence number 0x0503 and the right checksum.
abbrev echo : Bytes
echo = 0 ∷ 0 ∷ 0xE8 ∷ 0xC8 ∷ 0x12 ∷ 0x34 ∷ 0x05 ∷ 0x03 ∷ []

validate-internet_checksum_example :
    let c = internet_checksum (8 ∷ 0 ∷ 0 ∷ 0 ∷ 0x12 ∷ 0x34 ∷ []) in
    validate_icmp_checksum (8 ∷ 0 ∷ (c / 256) ∷ (c % 256) ∷ 0x12 ∷ 0x34 ∷ []) ≡ true
validate-internet_checksum_example =
    validate-internet_checksum 8 0 (0x12 ∷ 0x34 ∷ []) (omega arith) (omega arith)

abbrev label : Bool → MplsLabel
label bottom = record { label = 24001; exp = 5; bottom = bottom; ttl = 254 }

stack_labels-encode_stack_example :
    stack_labels (encode_stack (label false ∷ label true ∷ []) (1 ∷ 2 ∷ []))
    ≡ label false ∷ label true ∷ []
stack_labels-encode_stack_example =
    stack_labels-encode_stack (label false ∷ label true ∷ []) (1 ∷ 2 ∷ []) (ground arith)

parse_icmp_extensions-succeeds_example :
    succeeds (parse_icmp_extensions (λ bs. bs) echo 1 false) ≡ true
parse_icmp_extensions-succeeds_example = parse_icmp_extensions-succeeds (λ bs. bs) echo 1 false

-- Four quoted bytes, and two interface objects of the incoming role with an index each.
abbrev twice : Bytes
twice =
    0 ∷ 0 ∷ 0 ∷ 0 ∷ 32 ∷ 0 ∷ 0 ∷ 0 ∷ 0 ∷ 8 ∷ 2 ∷ 8 ∷ 0 ∷ 0 ∷ 0 ∷ 7 ∷ 0 ∷ 8 ∷ 2 ∷ 8 ∷ 0 ∷ 0 ∷ 0 ∷ 9
    ∷ []

abbrev seventh : IcmpInterfaceInfo
seventh = record { role = incoming_ip; if_index = some 7; ip_addr = none; name = none; mtu = none }

parse_icmp_extensions-roles_example : role_count 0 (seventh ∷ []) ≤ 1
unfolding parse_icmp_extensions parse_objects parse_object parse_interface read_if_index
    read_address read_name read_mtu slice_from byte be16_at slice be_number
parse_icmp_extensions-roles_example =
    parse_icmp_extensions-roles (λ bs. bs) twice 1 false
      (record { mpls_labels = none; interface_info = some (seventh ∷ []) }) (seventh ∷ []) 0 refl
      refl (omega arith)

extract-build_tcp_syn_sized_example :
    let packet = build_tcp_syn_sized probe 50000 80 (v4 1) (v4 2) 12 in
    (extract_probe_id_from_tcp packet ≡ some probe)
    × (be16 (get_or packet 0 0) (get_or packet 1 0) ≡ 50000)
    × (length packet ≡ 32)
extract-build_tcp_syn_sized_example =
    extract-build_tcp_syn_sized probe 50000 80 (v4 1) (v4 2) 12 (omega arith) (omega arith)

parse_icmp_response-is_safe_example :
    is_safe (parse_icmp_response reader echo (v4 7) 0x1234 true) ≡ true
parse_icmp_response-is_safe_example = parse_icmp_response-is_safe reader echo (v4 7) 0x1234 true

abbrev echoed : ParsedResponse
echoed = record {
  responder = v4 7;
  probe_id = probe;
  response_type = echo_reply;
  is_pmtud = false;
  mpls_labels = none;
  interface_info = none;
  src_port = none;
  mtu = none;
  quoted_ttl = none;
  original_dest = some (v4 7);
}

echo_reply_v4-ours_example :
    (validate_icmp_checksum echo ≡ true) × ((word_at echo 4 ≡ 0x1234) ⊎ (word_at echo 8 ≡ 0x1234))
unfolding parse_icmp_response parse_icmp_response_v4_dgram dispatch_v4 validate_icmp_checksum
    sum_words fold_carries parse_echo_reply byte be16_at slice_from from_sequence
echo_reply_v4-ours_example = echo_reply_v4-ours reader echo 7 0x1234 echoed refl refl

-- A quoted IPv6 packet without extension headers, around a UDP probe.
abbrev quoted : Bytes
quoted =
    0x60
    ∷ 0
    ∷ 0
    ∷ 0
    ∷ 0
    ∷ 40
    ∷ 17
    ∷ 1
    ∷ 0
    ∷ 0
    ∷ 0
    ∷ 0
    ∷ 0
    ∷ 0
    ∷ 0
    ∷ 0
    ∷ 0
    ∷ 0
    ∷ 0
    ∷ 0
    ∷ 0
    ∷ 0
    ∷ 0
    ∷ 1
    ∷ 0
    ∷ 0
    ∷ 0
    ∷ 0
    ∷ 0
    ∷ 0
    ∷ 0
    ∷ 0
    ∷ 0
    ∷ 0
    ∷ 0
    ∷ 0
    ∷ 0
    ∷ 0
    ∷ 0
    ∷ 2
    ∷ udp_header 50000 33434 40 0 (build_udp_payload_sized probe 32 ++ [])

time_exceeded_v6-matches_example :
    (r : ParsedResponse) × (parse_icmp_response reader
        (3 ∷ 0 ∷ 0 ∷ 0 ∷ 0 ∷ 0 ∷ 0 ∷ 0 ∷ quoted)
        (v6 9)
        0x1234
        true
      ≡ parsed r)
    × (r.probe_id ≡ probe)
    × (r.response_type ≡ time_exceeded 0)
    × (r.src_port ≡ some 50000)
    × (r.quoted_ttl ≡ some (get_or quoted 7 0))
    × (r.original_dest ≡ some (v6 (be_number 0 (take 16 (drop 24 quoted)))))
time_exceeded_v6-matches_example =
    time_exceeded_v6-matches reader 0 0 0 0 0 0 0 quoted probe 9 0x1234 50000 33434 40 0 32 [] true
      (omega arith) (omega arith) refl refl
