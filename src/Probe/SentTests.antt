-- ===== src/Probe/SentTests.antt =====
-- The theorems on packets built by hand and on echo requests, applied to small probes.
use ttl.Base.{
  ◌+◌, ◌/◌, ◌%◌, ◌≡◌, ◌≢◌, refl, true, false, none, some, [], ◌∷◌, ◌++◌, arith, length, get_or,
}
use ttl.Base.Bytes.{Bytes, be16}
use ttl.Base.Net.{v4}
use ttl.Probe.Id.{to_sequence}
use ttl.Probe.Outcome.{parsed}
use ttl.Probe.Checksum.{sum_words, fold_carries, internet_checksum, validate_icmp_checksum}
use ttl.Probe.Response.{ParsedResponse, time_exceeded, echo_reply}
use ttl.Probe.Udp.{build_udp_payload_sized, pattern_from}
use ttl.Probe.Correlate.{parse_icmp_response}
use ttl.Probe.RawIp.{build_ipv4_header, build_ipv4_packet, build_udp_datagram, udp_checksum_v4}
use ttl.Probe.RawIp.Verify.{build_udp_datagram-verifies}
use ttl.Probe.RawIp.Quoted.{ReadsHeaders, built_packet-matches}
use ttl.Probe.Echo.{build_echo_request, echo_payload, echo_tail}
use ttl.Probe.Echo.Reply.{echoed, echo_reply_v4-matches}
use ttl.Probe.Tests.{reader, probe}

build_udp_datagram-verifies_example :
    let packet = build_udp_datagram 16909060 84281096 50000 33434 (65 ∷ 66 ∷ 67 ∷ []) in
    (udp_checksum_v4 16909060 84281096 packet ≡ 0)
    × (length packet ≡ 8 + 3)
    × (be16 (get_or packet 6 0) (get_or packet 7 0) ≢ 0)
build_udp_datagram-verifies_example =
    build_udp_datagram-verifies 16909060 84281096 50000 33434 (65 ∷ 66 ∷ 67 ∷ []) (omega arith)
      (omega arith) (ground arith) (omega arith)

reader-ReadsHeaders : ReadsHeaders reader
reader-ReadsHeaders bs h = ground arith

-- The packet of a probe with 12 bytes of payload, in network order, with the Don't Fragment bit.
abbrev probe_datagram : Bytes
probe_datagram = build_udp_datagram 16909060 84281096 50000 33434 (build_udp_payload_sized probe 12)

abbrev probe_packet : Bytes
probe_packet = build_ipv4_header false 16909060 84281096 17 5 0 40 0 true ++ probe_datagram

built : build_ipv4_packet false 16909060 84281096 17 5 0 true probe_datagram ≡ some probe_packet
unfolding build_ipv4_packet build_ipv4_header build_udp_datagram build_udp_payload_sized
    pattern_from
built = refl

built_packet-matches_example :
    let message = 11 ∷ 0 ∷ 0 ∷ 0 ∷ 0 ∷ 0 ∷ 0 ∷ 0 ∷ (probe_packet ++ (9 ∷ [])) in
    (r : ParsedResponse) × (parse_icmp_response reader message (v4 7) 1 true ≡ parsed r)
    × (r.probe_id ≡ probe)
    × (r.response_type ≡ time_exceeded 0)
    × (r.src_port ≡ some 50000)
    × (r.quoted_ttl ≡ some 5)
    × (r.original_dest ≡ some (v4 84281096))
built_packet-matches_example =
    built_packet-matches reader 0 0 0 0 0 0 0 probe false true 16909060 84281096 5 0 50000 33434 12
      7 1 probe_packet (9 ∷ []) reader-ReadsHeaders (omega arith) (omega arith) (omega arith) built

-- A path MTU probe, whose header comes back with another identifier.
abbrev search_request : Bytes
search_request =
    build_echo_request internet_checksum 1000 4660 (to_sequence probe) 12 false none true

abbrev search_reply : Bytes
search_reply =
    echoed 0 0 (internet_checksum (echoed 0 0 0 0 9 9 search_request) / 256)
      (internet_checksum (echoed 0 0 0 0 9 9 search_request) % 256) 9 9 search_request

search_reply_valid : validate_icmp_checksum search_reply ≡ true
unfolding internet_checksum validate_icmp_checksum build_echo_request echo_payload echo_tail
    pattern_from to_sequence fold_carries sum_words
search_reply_valid = refl

echo_reply_v4-matches_example :
    (r : ParsedResponse) × (parse_icmp_response reader search_reply (v4 7) 4660 true ≡ parsed r)
    × (r.probe_id ≡ probe)
    × (r.response_type ≡ echo_reply)
    × (r.is_pmtud ≡ true)
    × (r.original_dest ≡ some (v4 7))
echo_reply_v4-matches_example =
    echo_reply_v4-matches reader internet_checksum 1000 4660 12 7 true probe 0 _ _ 9 9 (omega arith)
      (omega arith) search_reply_valid
