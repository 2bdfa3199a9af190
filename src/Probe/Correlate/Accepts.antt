-- ===== src/Probe/Correlate/Accepts.antt =====
-- Which responses are taken for ours, and that a router's answer to a probe is matched to it.
use ttl.Base.{
  ℕ, zero, suc, ap, ◌+◌, ◌≤◌, ◌<◌, ◌≡◌, refl, ◌⊎◌, Bool, true, none, some, [], ◌∷◌, ◌++◌, ◌/◌, ◌%◌,
  length, length-drop, take, drop, get_or, arith, length-append,
}
use ttl.Base.Bytes.{Bytes, be16}
use ttl.Base.Net.{IpAddr, v4, v6}
use ttl.Probe.Id.{ProbeId}
use ttl.Probe.Id.Sequence.{to_sequence-eq, from_sequence-to_sequence}
use ttl.Probe.Checksum.{validate_icmp_checksum}
use ttl.Probe.Udp.{build_udp_payload_sized, extract_probe_id_from_udp_payload}
use ttl.Probe.Udp.Payload.{length-build_udp_payload_sized}
use ttl.Probe.Extensions.{parse_icmp_extensions}
use ttl.Probe.Extensions.Total.{parse_icmp_extensions-succeeds}
use ttl.Probe.Outcome.{parsed, be_number}
use ttl.Probe.Outcome.Access.{
  byte-parsed, be16_at-parsed, slice_from-parsed, slice-parsed, succeeds-parsed,
}
use ttl.Probe.Response.{
  time_exceeded, ParsedResponse, Library, extract_id_from_payload, parse_echo_reply,
}
use ttl.Probe.Quoted.{
  Quote, quoting, quoted_udp, quoted_v6, quoted_v6_at, parse_icmp_error_payload_v6_with_mtu,
  parse_icmp_error_payload_v6_dgram,
}
use ttl.Probe.Quoted.Walk.{skip-plain}
use ttl.Probe.Correlate.{
  dispatch_v4, dispatch_v6, parse_icmp_response_v4_dgram, parse_icmp_response_v6_dgram,
  parse_icmp_response,
}

-- The 16-bit word at an index of a packet.
abbrev pub word_at : Bytes → ℕ → ℕ
word_at bs i = be16 (get_or bs i 0) (get_or bs (i + 1) 0)

extract_id_from_payload-ours :
    (bs : Bytes) (n s : ℕ) → extract_id_from_payload bs n ≡ parsed s → word_at bs 0 ≡ n
unfolding extract_id_from_payload
extract_id_from_payload-ours bs n s e = ground (arith, be16_at-parsed bs 0, be16_at-parsed bs 2)

get_or-drop : (n i : ℕ) (bs : Bytes) → get_or (drop n bs) i 0 ≡ get_or bs (n + i) 0
get_or-drop zero i bs = let e : zero + i ≡ i = omega arith in rw e
get_or-drop (suc n) i [] = refl
get_or-drop (suc n) i (b ∷ bs) =
    let e : suc n + i ≡ suc (n + i) = omega arith in rw e (get_or-drop n i bs)

parse_echo_reply-ours :
    (bs : Bytes) (responder : IpAddr) (n : ℕ) (r : ParsedResponse)
    → 8 ≤ length bs
    → parse_echo_reply bs responder n ≡ parsed r
    → (word_at bs 4 ≡ n) ⊎ (word_at bs 8 ≡ n)
unfolding parse_echo_reply
parse_echo_reply-ours bs responder n r h e = grind (
  arith,
  be16_at-parsed bs 4,
  be16_at-parsed bs 6,
  slice_from-parsed bs 8,
  get_or-drop 8 0 bs,
  get_or-drop 8 1 bs,
  extract_id_from_payload-ours (drop 8 bs) n,
)

-- On a datagram socket, an ICMP message of type 0 from an IPv4 responder is taken for a response
-- only if its checksum is right, and if our identifier stands in its header or in its payload.
pub echo_reply_v4-ours :
    (lib : Library) (bs : Bytes) (a n : ℕ) (r : ParsedResponse)
    → get_or bs 0 0 ≡ 0
    → parse_icmp_response lib bs (v4 a) n true ≡ parsed r
    → (validate_icmp_checksum bs ≡ true) × ((word_at bs 4 ≡ n) ⊎ (word_at bs 8 ≡ n))
unfolding parse_icmp_response parse_icmp_response_v4_dgram dispatch_v4
echo_reply_v4-ours lib bs a n r t e =
    ground (arith, byte-parsed bs 0, byte-parsed bs 1, parse_echo_reply-ours bs (v4 a) n r)

extract-append :
    (id : ProbeId) (size : ℕ) (rest : Bytes)
    → id.ttl < 256
    → id.seq < 256
    → extract_probe_id_from_udp_payload (build_udp_payload_sized id size ++ rest) ≡ some id
unfolding extract_probe_id_from_udp_payload build_udp_payload_sized
extract-append id size rest ht hs =
    ground (arith, to_sequence-eq id ht hs, from_sequence-to_sequence id ht hs)

-- The eight bytes of a UDP header with the source port `port`.
abbrev pub udp_header : ℕ → ℕ → ℕ → ℕ → Bytes → Bytes
udp_header port dst len sum rest =
    (port / 256)
    ∷ (port % 256)
    ∷ (dst / 256)
    ∷ (dst % 256)
    ∷ (len / 256)
    ∷ (len % 256)
    ∷ (sum / 256)
    ∷ (sum % 256)
    ∷ rest

pub quoted_udp-matches :
    (q : Quote) (id : ProbeId) (port dst len sum size : ℕ) (rest : Bytes)
    → id.ttl < 256
    → id.seq < 256
    → quoted_udp q (udp_header port dst len sum (build_udp_payload_sized id size ++ rest))
      ≡ parsed (quoting q id (some port))
unfolding quoted_udp
quoted_udp-matches q id port dst len sum size rest ht hs =
    let payload = build_udp_payload_sized id size ++ rest in
    let bs = udp_header port dst len sum payload in
    ground (
      arith,
      extract-append id size rest ht hs,
      length-append (build_udp_payload_sized id size) rest,
      length-build_udp_payload_sized id size,
      be16_at-parsed bs 0,
      slice_from-parsed bs 8,
    )

-- A Time Exceeded message whose quoted IPv6 packet holds one of our UDP probes is matched to it, on
-- either kind of socket: for every probe identity, ports, payload size, and whatever follows the
-- probe. The answer carries the router's code, the probe's source port, the quoted hop limit and
-- the quoted destination.
pub time_exceeded_v6-matches :
    (lib : Library) (code c1 c2 m0 m1 m2 m3 : ℕ) (original : Bytes) (id : ProbeId)
    (a n port dst len sum size : ℕ) (rest : Bytes) (is_dgram : Bool)
    → id.ttl < 256
    → id.seq < 256
    → get_or original 6 0 ≡ 17
    → drop 40 original ≡ udp_header port dst len sum (build_udp_payload_sized id size ++ rest)
    → let packet = 3 ∷ code ∷ c1 ∷ c2 ∷ m0 ∷ m1 ∷ m2 ∷ m3 ∷ original in
      (r : ParsedResponse) × (parse_icmp_response lib packet (v6 a) n is_dgram ≡ parsed r)
      × (r.probe_id ≡ id)
      × (r.response_type ≡ time_exceeded code)
      × (r.src_port ≡ some port)
      × (r.quoted_ttl ≡ some (get_or original 7 0))
      × (r.original_dest ≡ some (v6 (be_number 0 (take 16 (drop 24 original)))))
unfolding parse_icmp_response parse_icmp_response_v6_dgram dispatch_v6
    parse_icmp_error_payload_v6_dgram parse_icmp_error_payload_v6_with_mtu quoted_v6_at quoted_v6
time_exceeded_v6-matches lib code c1 c2 m0 m1 m2 m3 original id a n port dst len sum size rest
      is_dgram ht hs u t =
    let transport = udp_header port dst len sum (build_udp_payload_sized id size ++ rest) in
    let packet : Bytes = 3 ∷ code ∷ c1 ∷ c2 ∷ m0 ∷ m1 ∷ m2 ∷ m3 ∷ original in
    let (exts, e) =
      succeeds-parsed (parse_icmp_extensions lib.text original m0 true)
        (parse_icmp_extensions-succeeds lib.text original m0 true) in
    let q : Quote = record {
      responder = v6 a;
      response_type = time_exceeded code;
      mtu = none;
      exts = exts;
      quoted_ttl = get_or original 7 0;
      original_dest = v6 (be_number 0 (take 16 (drop 24 original)));
    } in
    (
      quoting q id (some port),
      ground (
        arith,
        e,
        ap length t,
        length-drop 40 original,
        length-append (build_udp_payload_sized id size) rest,
        length-build_udp_payload_sized id size,
        byte-parsed packet 0,
        byte-parsed packet 1,
        byte-parsed packet 4,
        slice_from-parsed packet 8,
        byte-parsed original 6,
        byte-parsed original 7,
        slice-parsed original 24 40,
        skip-plain original 17,
        slice_from-parsed original 40,
        quoted_udp-matches q id port dst len sum size rest ht hs,
      ),
      refl,
      refl,
      refl,
      refl,
      refl,
    )
