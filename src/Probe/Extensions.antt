-- ===== src/Probe/Extensions.antt =====
-- probe/correlate.rs: ICMP extensions (RFC 4884) with MPLS label stacks (RFC 4950) and interface
-- information (RFC 5837). `text` stands for the standard library's lossy UTF-8 decoding and trim.
pub mod Interface
pub mod Total
pub mod Roles
use Prim.Native.Nat.{bit_and, bit_or}
use ttl.Base.{
  ℕ, zero, suc, ◌+◌, ◌*◌, ◌/◌, ◌%◌, ◌^◌, Bool, true, false, ◌&&◌, ◌||◌, not, Option, none, some,
  List, [], ◌∷◌, ◌++◌, ltb, leb, ◌==◌, length, if◌then◌else◌,
}
use ttl.Base.Bytes.{Bytes}
use ttl.Probe.Outcome.{Outcome, parsed, rejected, panicked, ◌>>=◌, byte, slice_from, slice, be16_at}
use ttl.Probe.Mpls.{MplsLabel, stack_labels}
use Interface.{IcmpInterfaceInfo, parse_interface}

-- What the loop has collected.
pub record Collected : Type 0 where
  pub labels : List MplsLabel
  pub interfaces : List IcmpInterfaceInfo
  pub seen_roles : ℕ

pub record ParsedIcmpExtensions : Type 0 where
  pub mpls_labels : Option (List MplsLabel)
  pub interface_info : Option (List IcmpInterfaceInfo)

abbrev pub no_extensions : ParsedIcmpExtensions
no_extensions = record { mpls_labels = none; interface_info = none }

abbrev pub push_interface : Collected → Option IcmpInterfaceInfo → Collected
push_interface c none = c
push_interface c (some info) = record c { interfaces = c.interfaces ++ (info ∷ []) }

abbrev pub none_if_empty {ℓ} : {A : Type ℓ} → List A → Option (List A)
none_if_empty [] = none
none_if_empty (x ∷ xs) = some (x ∷ xs)

module _ (text : Bytes → Bytes) where
  -- An interface object of a role that was seen before is ignored.
  pub interface_object : ℕ → Bytes → Collected → Outcome Collected
  interface_object c_type obj_payload c =
      let role_val : ℕ = c_type / 64 % 4 in
      let role_mask = 2 ^ role_val in
      elim (bit_and c.seen_roles role_mask == 0) [
        | false ↦ parsed c
        | true ↦ do
          info ← parse_interface text c_type obj_payload
          parsed (push_interface (record c { seen_roles = bit_or c.seen_roles role_mask }) info)
      ]

  -- One object: a label stack (class 1, type 1), interface information (class 2), or neither.
  unfoldable pub parse_object : ℕ → ℕ → Bytes → Collected → Outcome Collected
  unfolding interface_object
  parse_object obj_class obj_type obj_payload c =
      if obj_class == 1 && obj_type == 1
      then parsed (record c { labels = c.labels ++ stack_labels obj_payload })
      else if obj_class == 2
      then interface_object obj_type obj_payload c
      else parsed c

  -- The loop over the objects, from `offset` on.
  unfoldable pub parse_objects : ℕ → Bytes → ℕ → Collected → Outcome Collected
  parse_objects zero ext_header offset c = panicked
  parse_objects (suc fuel) ext_header offset c = elim (leb (offset + 4) (length ext_header)) [
    | false ↦ parsed c
    | true ↦ do
      obj_length ← be16_at ext_header offset
      obj_class ← byte ext_header (offset + 2)
      obj_type ← byte ext_header (offset + 3)
      elim (ltb obj_length 4 || ltb (length ext_header) (offset + obj_length)) [
        | true ↦ parsed c
        | false ↦ do
          obj_payload ← slice ext_header (offset + 4) (offset + obj_length)
          c' ← parse_object obj_class obj_type obj_payload c
          parse_objects fuel ext_header (offset + obj_length) c'
      ]
  ]

  abbrev extension_start : ℕ → Bool → ℕ
  extension_start icmp_length is_ipv6 =
      if ltb 0 icmp_length then if is_ipv6 then icmp_length * 8 else icmp_length * 4 else 128

  unfoldable pub parse_icmp_extensions : Bytes → ℕ → Bool → Outcome ParsedIcmpExtensions
  parse_icmp_extensions icmp_payload icmp_length is_ipv6 =
      let ext_start = extension_start icmp_length is_ipv6 in
      elim (ltb (length icmp_payload) (ext_start + 4)) [
        | true ↦ parsed no_extensions
        | false ↦ do
          ext_header ← slice_from icmp_payload ext_start
          first ← byte ext_header 0
          elim (first / 16 % 16 == 2) [
            | false ↦ parsed no_extensions
            | true ↦ do
              c ←
                  parse_objects (length ext_header) ext_header 4
                    (record { labels = []; interfaces = []; seen_roles = 0 })
              parsed (record {
                mpls_labels = none_if_empty c.labels;
                interface_info = none_if_empty c.interfaces;
              })
          ]
      ]
