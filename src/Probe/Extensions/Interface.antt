-- ===== src/Probe/Extensions/Interface.antt =====
-- probe/correlate.rs: one interface information object (RFC 5837). The sub-objects are read in
-- turn at a cursor; one that does not fit makes the object malformed, and stops the reading.
use ttl.Base.{
  ℕ, ◌+◌, ◌/◌, ◌%◌, ◌^◌, Bool, true, false, ◌&&◌, not, Option, none, some, [], ◌∷◌, ltb, leb, ◌==◌,
  length, if◌then◌else◌,
}
use ttl.Base.Bytes.{Bytes}
use ttl.Base.Net.{IpAddr, v4, v6}
use ttl.Probe.Outcome.{Outcome, parsed, ◌>>=◌, byte, slice, be16_at, be_number}

pub data InterfaceRole : Type 0 where
  incoming_ip sub_ip_component outgoing_ip ip_next_hop : InterfaceRole

pub record IcmpInterfaceInfo : Type 0 where
  pub role : InterfaceRole
  pub if_index : Option ℕ
  pub ip_addr : Option IpAddr
  pub name : Option Bytes
  pub mtu : Option ℕ

-- `role_val` is below 4.
abbrev pub role_of : ℕ → InterfaceRole
role_of role_val =
    if role_val == 0
    then incoming_ip
    else if role_val == 1
    then sub_ip_component
    else if role_val == 2
    then outgoing_ip
    else ip_next_hop

pub record Cursor : Type 0 where
  pub pos : ℕ
  pub malformed : Bool
  pub if_index : Option ℕ
  pub ip_addr : Option IpAddr
  pub name : Option Bytes
  pub mtu : Option ℕ

abbrev pub start : Cursor
start = record {
  pos = 0;
  malformed = false;
  if_index = none;
  ip_addr = none;
  name = none;
  mtu = none;
}

abbrev pub fail : Cursor → Cursor
fail c = record c { malformed = true }

-- `(c_type & 2 ^ k) != 0`
abbrev pub has_flag : ℕ → ℕ → Bool
has_flag c_type k = c_type / 2 ^ k % 2 == 1

unfoldable pub read_if_index : ℕ → Bytes → Cursor → Outcome Cursor
read_if_index c_type obj_payload c = elim (has_flag c_type 3) [
  | false ↦ parsed c
  | true ↦ elim (leb (c.pos + 4) (length obj_payload)) [
    | false ↦ parsed (fail c)
    | true ↦ do
      bytes ← slice obj_payload c.pos (c.pos + 4)
      parsed (record c { if_index = some (be_number 0 bytes); pos = c.pos + 4 })
  ]
]

-- The address behind its family and reserved bytes: `size` octets.
unfoldable pub read_octets : ℕ → (ℕ → IpAddr) → Bytes → Cursor → Outcome Cursor
read_octets size make obj_payload c = elim (leb (c.pos + size) (length obj_payload)) [
  | false ↦ parsed (fail c)
  | true ↦ do
    bytes ← slice obj_payload c.pos (c.pos + size)
    parsed (record c { ip_addr = some (make (be_number 0 bytes)); pos = c.pos + size })
]

unfoldable pub read_address : ℕ → Bytes → Cursor → Outcome Cursor
unfolding read_octets
read_address c_type obj_payload c = elim (not c.malformed && has_flag c_type 2) [
  | false ↦ parsed c
  | true ↦ elim (leb (c.pos + 4) (length obj_payload)) [
    | false ↦ parsed (fail c)
    | true ↦ do
      afi ← be16_at obj_payload c.pos
      let behind : Cursor = record c { pos = c.pos + 4 }
      (if afi == 1
          then read_octets 4 v4 obj_payload behind
          else if afi == 2
          then read_octets 16 v6 obj_payload behind
          else parsed (fail behind))
  ]
]

-- The bytes before the first zero byte.
unfoldable pub before_nul : Bytes → Bytes
before_nul [] = []
before_nul (b ∷ bs) = let rest = before_nul bs in elim (b == 0) [ true ↦ [] | false ↦ b ∷ rest ]

abbrev pub some_text : Bytes → Option Bytes
some_text [] = none
some_text (b ∷ bs) = some (b ∷ bs)

module _ (text : Bytes → Bytes) where
  unfoldable pub read_name : ℕ → Bytes → Cursor → Outcome Cursor
  read_name c_type obj_payload c = elim (not c.malformed && has_flag c_type 1) [
    | false ↦ parsed c
    | true ↦ elim (ltb c.pos (length obj_payload)) [
      | false ↦ parsed (fail c)
      | true ↦ do
        name_len ← byte obj_payload c.pos
        elim (leb 1 name_len && leb (c.pos + name_len) (length obj_payload)) [
          | false ↦ parsed (fail c)
          | true ↦ do
            raw_name ← slice obj_payload (c.pos + 1) (c.pos + name_len)
            parsed
                (record c { name = some_text (text (before_nul raw_name)); pos = c.pos + name_len })
        ]
    ]
  ]

unfoldable pub read_mtu : ℕ → Bytes → Cursor → Outcome Cursor
read_mtu c_type obj_payload c = elim (not c.malformed && has_flag c_type 0) [
  | false ↦ parsed c
  | true ↦ elim (leb (c.pos + 4) (length obj_payload)) [
    | false ↦ parsed (fail c)
    | true ↦ do
      bytes ← slice obj_payload c.pos (c.pos + 4)
      parsed (record c { mtu = some (be_number 0 bytes) })
  ]
]

-- The object, or `none` if it is malformed.
unfoldable pub parse_interface : (Bytes → Bytes) → ℕ → Bytes → Outcome (Option IcmpInterfaceInfo)
parse_interface text c_type obj_payload = do
  c1 ← read_if_index c_type obj_payload start
  c2 ← read_address c_type obj_payload c1
  c3 ← read_name text c_type obj_payload c2
  c4 ← read_mtu c_type obj_payload c3
  parsed (
      if c4.malformed
      then none
      else some (record {
        role = role_of (c_type / 64 % 4);
        if_index = c4.if_index;
        ip_addr = c4.ip_addr;
        name = c4.name;
        mtu = c4.mtu;
      }))
