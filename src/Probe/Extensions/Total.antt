-- ===== src/Probe/Extensions/Total.antt =====
-- Reading the extensions of any packet succeeds: every access lies within the packet, and the
-- fuel, the length of the extension header, is enough.
use ttl.Base.{
  ℕ, zero, suc, ◌+◌, ◌≤◌, ◌<◌, ◌≡◌, Bool, true, length, get_or, arith, length-drop, drop, [],
}
use ttl.Base.Bytes.{Bytes}
use ttl.Base.Net.{IpAddr}
use ttl.Probe.Outcome.{succeeds}
use ttl.Probe.Outcome.Access.{byte-parsed, be16_at-parsed, slice_from-parsed, slice-parsed}
use ttl.Probe.Extensions.Interface.{
  Cursor, read_if_index, read_octets, read_address, read_name, read_mtu, parse_interface,
}
use ttl.Probe.Extensions.{
  extension_start, Collected, parse_object, parse_objects, parse_icmp_extensions,
}

read_if_index-succeeds : (t : ℕ) (bs : Bytes) (c : Cursor) → succeeds (read_if_index t bs c) ≡ true
unfolding read_if_index
read_if_index-succeeds t bs c = ground (arith, slice-parsed bs c.pos (c.pos + 4))

read_octets-succeeds :
    (n : ℕ) (make : ℕ → IpAddr) (bs : Bytes) (c : Cursor)
    → succeeds (read_octets n make bs c) ≡ true
unfolding read_octets
read_octets-succeeds n make bs c = ground (arith, slice-parsed bs c.pos (c.pos + n))

read_address-succeeds : (t : ℕ) (bs : Bytes) (c : Cursor) → succeeds (read_address t bs c) ≡ true
unfolding read_address
read_address-succeeds t bs c = ground (
  arith,
  be16_at-parsed bs c.pos,
  slice-parsed bs (c.pos + 4) (c.pos + 4 + 4),
  slice-parsed bs (c.pos + 4) (c.pos + 4 + 16),
)

read_mtu-succeeds : (t : ℕ) (bs : Bytes) (c : Cursor) → succeeds (read_mtu t bs c) ≡ true
unfolding read_mtu
read_mtu-succeeds t bs c = ground (arith, slice-parsed bs c.pos (c.pos + 4))

read_name-succeeds :
    (text : Bytes → Bytes) (t : ℕ) (bs : Bytes) (c : Cursor)
    → succeeds (read_name text t bs c) ≡ true
unfolding read_name
read_name-succeeds text t bs c =
    ground (arith, byte-parsed bs c.pos, slice-parsed bs (c.pos + 1) (c.pos + get_or bs c.pos 0))

parse_interface-succeeds :
    (text : Bytes → Bytes) (t : ℕ) (bs : Bytes) → succeeds (parse_interface text t bs) ≡ true
unfolding parse_interface
parse_interface-succeeds text t bs =
    grind
      (arith, read_if_index-succeeds, read_address-succeeds, read_name-succeeds, read_mtu-succeeds)

parse_object-succeeds :
    (text : Bytes → Bytes) (k t : ℕ) (bs : Bytes) (c : Collected)
    → succeeds (parse_object text k t bs c) ≡ true
unfolding parse_object
parse_object-succeeds text k t bs c = ground (arith, parse_interface-succeeds text t bs)

parse_objects-succeeds :
    (text : Bytes → Bytes) (fuel : ℕ) (bs : Bytes) (offset : ℕ) (c : Collected)
    → offset ≤ length bs
    → length bs < offset + fuel
    → succeeds (parse_objects text fuel bs offset c) ≡ true
unfolding parse_objects
parse_objects-succeeds text zero bs offset c h n = absurd (omega arith)
parse_objects-succeeds text (suc fuel) bs offset c h n = grind (
  arith,
  be16_at-parsed bs offset,
  byte-parsed bs (offset + 2),
  byte-parsed bs (offset + 3),
  slice-parsed bs (offset + 4),
  parse_object-succeeds text,
  parse_objects-succeeds text fuel bs,
)

-- For every packet, length field and address family, reading the extensions returns: no access
-- leaves the packet, and the loop over the objects ends.
pub parse_icmp_extensions-succeeds :
    (text : Bytes → Bytes) (icmp_payload : Bytes) (icmp_length : ℕ) (is_ipv6 : Bool)
    → succeeds (parse_icmp_extensions text icmp_payload icmp_length is_ipv6) ≡ true
unfolding parse_icmp_extensions
parse_icmp_extensions-succeeds text bs n six =
    let from = extension_start text n six in
    ground (
      arith,
      slice_from-parsed bs from,
      length-drop from bs,
      byte-parsed (drop from bs) 0,
      parse_objects-succeeds text (length (drop from bs)) (drop from bs) 4
          (record { labels = []; interfaces = []; seen_roles = 0 }),
    )
