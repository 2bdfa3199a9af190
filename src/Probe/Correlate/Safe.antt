-- ===== src/Probe/Correlate/Safe.antt =====
-- No packet makes the parser panic.
use ttl.Base.{ℕ, ◌≡◌, Bool, true, Option, length, drop, get_or, ◌≤◌, arith, length-drop}
use ttl.Base.Bytes.{Bytes}
use ttl.Base.Net.{IpAddr}
use ttl.Probe.Outcome.{is_safe}
use ttl.Probe.Outcome.Access.{byte-parsed, be16_at-parsed, slice_from-parsed, slice-parsed}
use ttl.Probe.Response.{IcmpResponseType, Library, parse_echo_reply}
use ttl.Probe.Quoted.{
  parse_icmp_error_payload_v4_with_mtu, parse_icmp_error_payload_v4_dgram,
  parse_icmp_error_payload_v6_with_mtu, parse_icmp_error_payload_v6_dgram,
}
use ttl.Probe.Quoted.Safe.{
  extract_id_from_payload-is_safe, parse_icmp_error_payload_v4-is_safe,
  parse_icmp_error_payload_v6-is_safe,
}
use ttl.Probe.Correlate.{
  frag_needed_mtu, too_big_mtu, ErrorParser, dispatch_v4, dispatch_v6, parse_icmp_response_v4,
  parse_icmp_response_v4_dgram, parse_icmp_response_v6_dgram, parse_icmp_response,
}

parse_echo_reply-is_safe :
    (bs : Bytes) (responder : IpAddr) (n : ℕ)
    → 8 ≤ length bs
    → is_safe (parse_echo_reply bs responder n) ≡ true
unfolding parse_echo_reply
parse_echo_reply-is_safe bs responder n h = ground (
  arith,
  be16_at-parsed bs 4,
  be16_at-parsed bs 6,
  slice_from-parsed bs 8,
  extract_id_from_payload-is_safe (drop 8 bs) n,
)

-- What is asked of the parser of errors that a dispatch calls.
abbrev SafeErrors : ErrorParser → Type 0
SafeErrors parse_error =
    (bs : Bytes) (responder : IpAddr) (n : ℕ) (t : IcmpResponseType) (mtu : Option ℕ)
    → is_safe (parse_error bs responder n t mtu) ≡ true

dispatch_v4-is_safe :
    (parse_error : ErrorParser) (t c : ℕ) (bs : Bytes) (responder : IpAddr) (n : ℕ)
    → SafeErrors parse_error
    → 8 ≤ length bs
    → is_safe (dispatch_v4 parse_error t c bs responder n) ≡ true
unfolding dispatch_v4 frag_needed_mtu
dispatch_v4-is_safe parse_error t c bs responder n safe h =
    grind (arith, parse_echo_reply-is_safe bs responder n h, be16_at-parsed bs 6, safe)

dispatch_v6-is_safe :
    (parse_error : ErrorParser) (t c : ℕ) (bs : Bytes) (responder : IpAddr) (n : ℕ)
    → SafeErrors parse_error
    → 8 ≤ length bs
    → is_safe (dispatch_v6 parse_error t c bs responder n) ≡ true
unfolding dispatch_v6 too_big_mtu
dispatch_v6-is_safe parse_error t c bs responder n safe h =
    grind (arith, parse_echo_reply-is_safe bs responder n h, slice-parsed bs 4 8, safe)

module _ (lib : Library) (bs : Bytes) (responder : IpAddr) (n : ℕ) where
  v4-is_safe : is_safe (parse_icmp_response_v4 lib bs responder n) ≡ true
  unfolding parse_icmp_response_v4
  v4-is_safe = grind (
    arith,
    slice_from-parsed bs,
    length-drop,
    dispatch_v4-is_safe,
    parse_icmp_error_payload_v4-is_safe lib,
  )

  v4_dgram-is_safe : is_safe (parse_icmp_response_v4_dgram lib bs responder n) ≡ true
  unfolding parse_icmp_response_v4_dgram parse_icmp_error_payload_v4_dgram
  v4_dgram-is_safe = ground (
    arith,
    byte-parsed bs 0,
    byte-parsed bs 1,
    dispatch_v4-is_safe (parse_icmp_error_payload_v4_with_mtu lib) (get_or bs 0 0) (get_or bs 1 0)
        bs responder n (parse_icmp_error_payload_v4-is_safe lib),
  )

  v6_dgram-is_safe : is_safe (parse_icmp_response_v6_dgram lib bs responder n) ≡ true
  unfolding parse_icmp_response_v6_dgram parse_icmp_error_payload_v6_dgram
  v6_dgram-is_safe = ground (
    arith,
    byte-parsed bs 0,
    byte-parsed bs 1,
    dispatch_v6-is_safe (parse_icmp_error_payload_v6_with_mtu lib) (get_or bs 0 0) (get_or bs 1 0)
        bs responder n (parse_icmp_error_payload_v6-is_safe lib),
  )

  -- Of any packet from any responder, on a raw or a datagram socket, the parser makes a response or
  -- nothing: it never reads outside the packet, and its loops end. This holds whatever the packet
  -- library reads from the headers.
  pub parse_icmp_response-is_safe :
      (is_dgram : Bool) → is_safe (parse_icmp_response lib bs responder n is_dgram) ≡ true
  unfolding parse_icmp_response
  parse_icmp_response-is_safe is_dgram =
      ground (arith, v4-is_safe, v4_dgram-is_safe, v6_dgram-is_safe)
