-- ===== src/Probe/RawIp/Quoted.antt =====
-- probe/rawip.rs, probe/udp.rs and probe/correlate.rs: a router's answer to a packet built by hand.
use ttl.Base.{
  ℕ, ◌+◌, ◌%◌, ◌≤◌, ◌<◌, ◌≡◌, ◌∙◌, refl, ap, length-drop, Bool, true, false, none, some, ◌∷◌, ◌++◌,
  ◌==◌, length, length-append, drop, get_or, arith, if◌then◌else◌,
}
use mathlib.Core.List.{append_assoc}
use ttl.Base.Bytes.{Bytes, be32}
use ttl.Base.Net.{v4}
use ttl.Probe.Id.{ProbeId}
use ttl.Probe.Udp.{build_udp_payload_sized}
use ttl.Probe.Udp.Payload.{length-build_udp_payload_sized}
use ttl.Probe.Extensions.{parse_icmp_extensions}
use ttl.Probe.Extensions.Total.{parse_icmp_extensions-succeeds}
use ttl.Probe.Outcome.{parsed}
use ttl.Probe.Outcome.Access.{byte-parsed, slice_from-parsed, succeeds-parsed}
use ttl.Probe.Response.{time_exceeded, ParsedResponse, Library, Ipv4Header}
use ttl.Probe.Quoted.{
  Quote, quoting, quoted_v4, parse_icmp_error_payload_v4_with_mtu,
  parse_icmp_error_payload_v4_dgram,
}
use ttl.Probe.Correlate.{dispatch_v4, parse_icmp_response_v4_dgram, parse_icmp_response}
use ttl.Probe.Correlate.Accepts.{udp_header, quoted_udp-matches}
use ttl.Probe.RawIp.{
  build_ipv4_packet, build_ipv4_header, build_udp_datagram, udp_checksum_v4, datagram,
}

-- What the packet library documents of its IPv4 packets: it reads the fields of the header from
-- their places, in every packet of at least 20 bytes.
abbrev pub ReadsHeaders : Library → Type 0
ReadsHeaders lib =
    (bs : Bytes)
    → 20 ≤ length bs
    → lib.ipv4_packet bs
      ≡ some (record {
        header_length = get_or bs 0 0 % 16;
        protocol = get_or bs 9 0;
        ttl = get_or bs 8 0;
        destination = v4 (be32 (get_or bs 16 0) (get_or bs 17 0) (get_or bs 18 0) (get_or bs 19 0));
      })

time_exceeded_v4-matches :
    (lib : Library) (code c1 c2 m0 m1 m2 m3 : ℕ) (original : Bytes) (ip : Ipv4Header) (id : ProbeId)
    (a n port dst len sum size : ℕ) (rest : Bytes)
    → id.ttl < 256
    → id.seq < 256
    → lib.ipv4_packet original ≡ some ip
    → ip.header_length ≡ 5
    → ip.protocol ≡ 17
    → drop 20 original ≡ udp_header port dst len sum (build_udp_payload_sized id size ++ rest)
    → let packet = 11 ∷ code ∷ c1 ∷ c2 ∷ m0 ∷ m1 ∷ m2 ∷ m3 ∷ original in
      (r : ParsedResponse) × (parse_icmp_response lib packet (v4 a) n true ≡ parsed r)
      × (r.probe_id ≡ id)
      × (r.response_type ≡ time_exceeded code)
      × (r.src_port ≡ some port)
      × (r.quoted_ttl ≡ some ip.ttl)
      × (r.original_dest ≡ some ip.destination)
unfolding parse_icmp_response parse_icmp_response_v4_dgram dispatch_v4
    parse_icmp_error_payload_v4_dgram parse_icmp_error_payload_v4_with_mtu quoted_v4
time_exceeded_v4-matches lib code c1 c2 m0 m1 m2 m3 original ip id a n port dst len sum size rest ht
      hs read ihl udp t =
    let packet : Bytes = 11 ∷ code ∷ c1 ∷ c2 ∷ m0 ∷ m1 ∷ m2 ∷ m3 ∷ original in
    let (exts, e) =
      succeeds-parsed (parse_icmp_extensions lib.text original m1 false)
        (parse_icmp_extensions-succeeds lib.text original m1 false) in
    let q : Quote = record {
      responder = v4 a;
      response_type = time_exceeded code;
      mtu = none;
      exts = exts;
      quoted_ttl = ip.ttl;
      original_dest = ip.destination;
    } in
    (
      quoting q id (some port),
      ground (
        arith,
        e,
        read,
        ap length t,
        length-drop 20 original,
        length-append (build_udp_payload_sized id size) rest,
        length-build_udp_payload_sized id size,
        byte-parsed packet 0,
        byte-parsed packet 1,
        byte-parsed packet 5,
        slice_from-parsed packet 8,
        slice_from-parsed original 20,
        quoted_udp-matches q id port dst len sum size rest ht hs,
      ),
      refl,
      refl,
      refl,
      refl,
      refl,
    )

-- The packet, when it is not too long, is its header and its datagram.
built_packet :
    (host_order df : Bool) (src dst ttl tos : ℕ) (transport packet : Bytes)
    → build_ipv4_packet host_order src dst 17 ttl tos df transport ≡ some packet
    → packet
      ≡ build_ipv4_header host_order src dst 17 ttl tos (20 + length transport) 0 df ++ transport
unfolding build_ipv4_packet
built_packet host_order df src dst ttl tos transport packet built = ground arith

read_header :
    (lib : Library) (host_order df : Bool) (src dst ttl tos total : ℕ) (rest : Bytes)
    → ReadsHeaders lib
    → dst < 4294967296
    → lib.ipv4_packet (build_ipv4_header host_order src dst 17 ttl tos total 0 df ++ rest)
      ≡ some (record { header_length = 5; protocol = 17; ttl = ttl; destination = v4 dst })
unfolding build_ipv4_header
read_header lib true df src dst ttl tos total rest reads hd =
    reads _ (omega arith) ∙ ap (λ d. some (header d)) (omega arith)
  where
    header : ℕ → Ipv4Header
    header d = record { header_length = 5; protocol = 17; ttl = ttl; destination = v4 d }
read_header lib false df src dst ttl tos total rest reads hd =
    reads _ (omega arith) ∙ ap (λ d. some (header d)) (omega arith)
  where
    header : ℕ → Ipv4Header
    header d = record { header_length = 5; protocol = 17; ttl = ttl; destination = v4 d }

drop-header :
    (host_order df : Bool) (src dst ttl tos total : ℕ) (rest : Bytes)
    → drop 20 (build_ipv4_header host_order src dst 17 ttl tos total 0 df ++ rest) ≡ rest
unfolding build_ipv4_header
drop-header true df src dst ttl tos total rest = refl
drop-header false df src dst ttl tos total rest = refl

-- A UDP probe in a packet built by hand, quoted in full in a Time Exceeded message that arrives on a
-- datagram socket, is matched: the answer carries the router's code and the identity, the source
-- port, the time to live and the destination that the packet was built with. This holds for every
-- identity, addresses, ports, payload size and flags, for either byte order of the header, and
-- whatever follows the packet.
pub built_packet-matches :
    (lib : Library) (code c1 c2 m0 m1 m2 m3 : ℕ) (id : ProbeId) (host_order df : Bool)
    (src dst ttl tos port dst_port size a n : ℕ) (packet rest : Bytes)
    → ReadsHeaders lib
    → id.ttl < 256
    → id.seq < 256
    → dst < 4294967296
    → build_ipv4_packet host_order src dst 17 ttl tos df
        (build_udp_datagram src dst port dst_port (build_udp_payload_sized id size))
      ≡ some packet
    → let message = 11 ∷ code ∷ c1 ∷ c2 ∷ m0 ∷ m1 ∷ m2 ∷ m3 ∷ (packet ++ rest) in
      (r : ParsedResponse) × (parse_icmp_response lib message (v4 a) n true ≡ parsed r)
      × (r.probe_id ≡ id)
      × (r.response_type ≡ time_exceeded code)
      × (r.src_port ≡ some port)
      × (r.quoted_ttl ≡ some ttl)
      × (r.original_dest ≡ some (v4 dst))
unfolding build_udp_datagram
built_packet-matches lib code c1 c2 m0 m1 m2 m3 id host_order df src dst ttl tos port dst_port size
      a n packet rest reads ht hs hd built =
    let payload = build_udp_payload_sized id size in
    let dgram = build_udp_datagram src dst port dst_port payload in
    let sum = udp_checksum_v4 src dst (datagram port dst_port 0 payload) in
    let total = 20 + length dgram in
    let header = build_ipv4_header host_order src dst 17 ttl tos total 0 df in
    let e : packet ++ rest ≡ header ++ (dgram ++ rest) =
      ap (λ bs. bs ++ rest) (built_packet host_order df src dst ttl tos dgram packet built)
      ∙ append_assoc header dgram rest in
    time_exceeded_v4-matches lib code c1 c2 m0 m1 m2 m3 (packet ++ rest)
      (record { header_length = 5; protocol = 17; ttl = ttl; destination = v4 dst }) id a n port
      dst_port ((8 + length payload) % 65536) (if sum == 0 then 0xFFFF else sum) size rest ht hs
      (rw e (read_header lib host_order df src dst ttl tos total (dgram ++ rest) reads hd)) refl
      refl (rw e (drop-header host_order df src dst ttl tos total (dgram ++ rest)))
