-- ===== src/Probe/Echo/Reply.antt =====
-- probe/icmp.rs and probe/correlate.rs: the reply to an Echo Request is matched to its probe.
use ttl.Base.{
  ℕ, zero, suc, ◌+◌, ◌-◌, ◌<◌, ◌≡◌, refl, max, Bool, true, false, ◌&&◌, Option, none, some, ◌∷◌,
  ltb, ◌==◌, length, drop, get_or, arith,
}
use ttl.Base.Bytes.{Bytes}
use ttl.Base.Net.{IpAddr, v4, v6}
use ttl.Probe.Id.{ProbeId, to_sequence}
use ttl.Probe.Id.Sequence.{from_sequence-to_sequence}
use ttl.Probe.Checksum.{validate_icmp_checksum}
use ttl.Probe.Outcome.{parsed}
use ttl.Probe.Outcome.Access.{byte-parsed, be16_at-parsed, slice_from-parsed}
use ttl.Probe.Response.{
  echo_reply, ParsedResponse, Library, is_pmtud_payload, reply, extract_id_from_payload,
  parse_echo_reply,
}
use ttl.Probe.Correlate.{
  dispatch_v4, dispatch_v6, parse_icmp_response_v4_dgram, parse_icmp_response_v6_dgram,
  parse_icmp_response,
}
use ttl.Probe.Echo.{echo_tail, echo_payload, build_echo_request}

marked :
    (pmtud : Bool) (n : ℕ)
    → (ltb 8 (8 + length (echo_tail pmtud n)) && get_or (echo_tail pmtud n) 0 0 == 0x50)
      ≡ (pmtud && ltb 0 n)
unfolding echo_tail
marked true zero = ground arith
marked false zero = ground arith
marked true (suc n) = ground arith
marked false (suc n) = ground arith

-- The marker is found in the payload of a path MTU probe that has room for it.
is_pmtud_echo_payload :
    (identifier sequence timestamp size : ℕ) (pmtud : Bool)
    → is_pmtud_payload (echo_payload identifier sequence timestamp size pmtud)
      ≡ (pmtud && ltb 8 size)
unfolding echo_payload
is_pmtud_echo_payload identifier sequence timestamp size pmtud =
    ground (arith, marked pmtud (max size 8 - 8))

-- A reply: a message of the type `kind` with the payload of the request, whose header has the
-- sequence number of the probe, and any identifier.
abbrev pub echoed : ℕ → ℕ → ℕ → ℕ → ℕ → ℕ → Bytes → Bytes
echoed kind code c1 c2 i1 i2 request = kind ∷ code ∷ c1 ∷ c2 ∷ i1 ∷ i2 ∷ drop 6 request

extract-echo_payload :
    (identifier sequence timestamp size : ℕ) (pmtud : Bool)
    → extract_id_from_payload (echo_payload identifier sequence timestamp size pmtud) identifier
      ≡ parsed sequence
unfolding extract_id_from_payload echo_payload
extract-echo_payload identifier sequence timestamp size pmtud =
    let bs = echo_payload identifier sequence timestamp size pmtud in
    ground (arith, be16_at-parsed bs 0, be16_at-parsed bs 2)

parse_echo_reply-matches :
    (responder : IpAddr) (checksum : Bytes → ℕ) (timestamp identifier size : ℕ) (ipv6 : Bool)
    (addrs : Option (ℕ × ℕ)) (pmtud : Bool) (id : ProbeId) (kind code c1 c2 i1 i2 : ℕ)
    → id.ttl < 256
    → id.seq < 256
    → let request =
        build_echo_request checksum timestamp identifier (to_sequence id) size ipv6 addrs pmtud in
      (r : ParsedResponse) × (parse_echo_reply
          (echoed kind code c1 c2 i1 i2 request)
          responder
          identifier
        ≡ parsed r)
      × (r.probe_id ≡ id)
      × (r.response_type ≡ echo_reply)
      × (r.is_pmtud ≡ (pmtud && ltb 8 size))
      × (r.original_dest ≡ some responder)
unfolding parse_echo_reply build_echo_request
parse_echo_reply-matches responder checksum timestamp identifier size ipv6 addrs pmtud id kind code
      c1 c2 i1 i2 ht hs =
    let payload = echo_payload identifier (to_sequence id) timestamp size pmtud in
    let request =
      build_echo_request checksum timestamp identifier (to_sequence id) size ipv6 addrs pmtud in
    let message : Bytes = echoed kind code c1 c2 i1 i2 request in
    (
      reply responder (to_sequence id) payload,
      ground (
        arith,
        be16_at-parsed message 4,
        be16_at-parsed message 6,
        slice_from-parsed message 8,
        extract-echo_payload identifier (to_sequence id) timestamp size pmtud,
      ),
      from_sequence-to_sequence id ht hs,
      refl,
      is_pmtud_echo_payload identifier (to_sequence id) timestamp size pmtud,
      refl,
    )

-- The target's reply to a probe is matched to it, over IPv4 on a datagram socket: for every identity,
-- payload size and time, and whatever identifier the kernel wrote into the header, since the payload
-- has ours. It is of the path MTU search exactly if the probe was and its payload had room for the
-- marker. The checksum of the reply must be right, and its type 0.
pub echo_reply_v4-matches :
    (lib : Library) (checksum : Bytes → ℕ) (timestamp identifier size a : ℕ) (pmtud : Bool)
    (id : ProbeId) (code c1 c2 i1 i2 : ℕ)
    → id.ttl < 256
    → id.seq < 256
    → validate_icmp_checksum (
        echoed 0 code c1 c2 i1 i2
          (build_echo_request checksum timestamp identifier (to_sequence id) size false none pmtud))
      ≡ true
    → let request =
        build_echo_request checksum timestamp identifier (to_sequence id) size false none pmtud in
      let message = echoed 0 code c1 c2 i1 i2 request in
      (r : ParsedResponse) × (parse_icmp_response lib message (v4 a) identifier true ≡ parsed r)
      × (r.probe_id ≡ id)
      × (r.response_type ≡ echo_reply)
      × (r.is_pmtud ≡ (pmtud && ltb 8 size))
      × (r.original_dest ≡ some (v4 a))
unfolding parse_icmp_response parse_icmp_response_v4_dgram dispatch_v4 build_echo_request
echo_reply_v4-matches lib checksum timestamp identifier size a pmtud id code c1 c2 i1 i2 ht hs
      valid =
    let request =
      build_echo_request checksum timestamp identifier (to_sequence id) size false none pmtud in
    let message : Bytes = echoed 0 code c1 c2 i1 i2 request in
    let (r, e, p, k, m, d) =
      parse_echo_reply-matches (v4 a) checksum timestamp identifier size false none pmtud id 0 code
        c1 c2 i1 i2 ht hs in
    (r, ground (arith, e, valid, byte-parsed message 0, byte-parsed message 1), p, k, m, d)

-- Over IPv6, on either kind of socket, the kernel has checked the checksum, and the type is 129.
pub echo_reply_v6-matches :
    (lib : Library) (checksum : Bytes → ℕ) (timestamp identifier size a : ℕ)
    (addrs : Option (ℕ × ℕ)) (pmtud is_dgram : Bool) (id : ProbeId) (code c1 c2 i1 i2 : ℕ)
    → id.ttl < 256
    → id.seq < 256
    → let request =
        build_echo_request checksum timestamp identifier (to_sequence id) size true addrs pmtud in
      let message = echoed 129 code c1 c2 i1 i2 request in
      (r : ParsedResponse) × (parse_icmp_response lib message (v6 a) identifier is_dgram ≡ parsed r)
      × (r.probe_id ≡ id)
      × (r.response_type ≡ echo_reply)
      × (r.is_pmtud ≡ (pmtud && ltb 8 size))
      × (r.original_dest ≡ some (v6 a))
unfolding parse_icmp_response parse_icmp_response_v6_dgram dispatch_v6 build_echo_request
echo_reply_v6-matches lib checksum timestamp identifier size a addrs pmtud is_dgram id code c1 c2 i1
      i2 ht hs =
    let request =
      build_echo_request checksum timestamp identifier (to_sequence id) size true addrs pmtud in
    let message : Bytes = echoed 129 code c1 c2 i1 i2 request in
    let (r, e, p, k, m, d) =
      parse_echo_reply-matches (v6 a) checksum timestamp identifier size true addrs pmtud id 129
        code c1 c2 i1 i2 ht hs in
    (r, ground (arith, e, byte-parsed message 0, byte-parsed message 1), p, k, m, d)
