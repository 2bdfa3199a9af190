-- ===== src/Probe/Quoted/Safe.antt =====
-- The parsers of ICMP errors stay within the packet.
use ttl.Base.{ℕ, ◌≤◌, ◌≡◌, true, Option, length, drop, arith, length-drop}
use ttl.Base.Bytes.{Bytes}
use ttl.Base.Net.{IpAddr}
use ttl.Probe.Outcome.{is_safe}
use ttl.Probe.Outcome.Access.{byte-parsed, be16_at-parsed, slice_from-parsed, slice-parsed}
use ttl.Probe.Response.{IcmpResponseType, Library, extract_id_from_payload}
use ttl.Probe.Extensions.{ParsedIcmpExtensions}
use ttl.Probe.Extensions.Total.{parse_icmp_extensions-succeeds}
use ttl.Probe.Quoted.Walk.{skip-succeeds}
use ttl.Probe.Quoted.{
  Quote, quoted_echo, quoted_tcp, quoted_udp, quoted_v4, quoted_v6, quoted_v6_at,
  parse_icmp_error_payload_v4_with_mtu, parse_icmp_error_payload_v6_with_mtu,
}

pub extract_id_from_payload-is_safe :
    (bs : Bytes) (n : ℕ) → is_safe (extract_id_from_payload bs n) ≡ true
unfolding extract_id_from_payload
extract_id_from_payload-is_safe bs n = ground (arith, be16_at-parsed bs 0, be16_at-parsed bs 2)

quoted_echo-is_safe :
    (k : ℕ) (q : Quote) (n : ℕ) (bs : Bytes) → 8 ≤ length bs → is_safe (quoted_echo k q n bs) ≡ true
unfolding quoted_echo
quoted_echo-is_safe k q n bs h = ground (
  arith,
  byte-parsed bs 0,
  be16_at-parsed bs 4,
  be16_at-parsed bs 6,
  slice_from-parsed bs 8,
  extract_id_from_payload-is_safe (drop 8 bs) n,
)

quoted_tcp-is_safe : (q : Quote) (bs : Bytes) → is_safe (quoted_tcp q bs) ≡ true
unfolding quoted_tcp
quoted_tcp-is_safe q bs = ground (arith, be16_at-parsed bs 0)

quoted_udp-is_safe : (q : Quote) (bs : Bytes) → is_safe (quoted_udp q bs) ≡ true
unfolding quoted_udp
quoted_udp-is_safe q bs = ground (arith, be16_at-parsed bs 0, slice_from-parsed bs 8)

quoted_v4-is_safe :
    (q : Quote) (n p : ℕ) (bs : Bytes) → 8 ≤ length bs → is_safe (quoted_v4 q n p bs) ≡ true
unfolding quoted_v4
quoted_v4-is_safe q n p bs h =
    ground (arith, quoted_echo-is_safe 8 q n bs h, quoted_tcp-is_safe q bs, quoted_udp-is_safe q bs)

quoted_v6-is_safe : (q : Quote) (n p : ℕ) (bs : Bytes) → is_safe (quoted_v6 q n p bs) ≡ true
unfolding quoted_v6
quoted_v6-is_safe q n p bs =
    ground (arith, quoted_echo-is_safe 128 q n bs, quoted_tcp-is_safe q bs, quoted_udp-is_safe q bs)

module _ (lib : Library) where
  pub parse_icmp_error_payload_v4-is_safe :
      (bs : Bytes) (responder : IpAddr) (n : ℕ) (t : IcmpResponseType) (mtu : Option ℕ)
      → is_safe (parse_icmp_error_payload_v4_with_mtu lib bs responder n t mtu) ≡ true
  unfolding parse_icmp_error_payload_v4_with_mtu
  parse_icmp_error_payload_v4-is_safe bs responder n t mtu = grind (
    arith,
    byte-parsed bs 5,
    slice_from-parsed,
    length-drop,
    parse_icmp_extensions-succeeds lib.text,
    quoted_v4-is_safe,
  )

  quoted_v6_at-is_safe :
      (bs : Bytes) (k : ℕ) (at : ℕ × ℕ) (n : ℕ) (quote : ParsedIcmpExtensions → Quote)
      → is_safe (quoted_v6_at lib bs k at n quote) ≡ true
  unfolding quoted_v6_at
  quoted_v6_at-is_safe bs k at n quote = grind (
    arith,
    slice_from-parsed bs at.0,
    parse_icmp_extensions-succeeds lib.text bs k true,
    quoted_v6-is_safe,
  )

  pub parse_icmp_error_payload_v6-is_safe :
      (bs : Bytes) (responder : IpAddr) (n : ℕ) (t : IcmpResponseType) (mtu : Option ℕ)
      → is_safe (parse_icmp_error_payload_v6_with_mtu lib bs responder n t mtu) ≡ true
  unfolding parse_icmp_error_payload_v6_with_mtu
  parse_icmp_error_payload_v6-is_safe bs responder n t mtu = grind (
    arith,
    byte-parsed bs 4,
    slice_from-parsed bs 8,
    length-drop 8 bs,
    byte-parsed (drop 8 bs) 6,
    byte-parsed (drop 8 bs) 7,
    slice-parsed (drop 8 bs) 24 40,
    skip-succeeds (drop 8 bs),
    quoted_v6_at-is_safe,
  )
