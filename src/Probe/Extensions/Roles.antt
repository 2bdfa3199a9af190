-- ===== src/Probe/Extensions/Roles.antt =====
-- Of every interface role at most one object is kept.
use Prim.Native.Nat.{bit_and, bit_or}
use ttl.Base.{
  ℕ, zero, suc, ◌+◌, ◌/◌, ◌%◌, ◌^◌, ◌≤◌, ◌<◌, ◌≡◌, refl, Bool, true, ◌&&◌, ◌||◌, not, leb, length,
  Option, none, some, List, [], ◌∷◌, ◌++◌, arith, ltb, ◌==◌, Bool-cases, inl, inr, subst, ap,
  if◌then◌else◌,
}
use ttl.Base.Bytes.{Bytes}
use ttl.Base.Finite.{every, at_every}
use ttl.Probe.Outcome.{
  Outcome, parsed, rejected, panicked, ◌>>=◌, >>=-eq-parsed, byte, slice, slice_from, be16_at,
}
use ttl.Probe.Extensions.Interface.{
  InterfaceRole, incoming_ip, sub_ip_component, outgoing_ip, ip_next_hop, IcmpInterfaceInfo,
  role_of, parse_interface,
}
use ttl.Probe.Extensions.{
  extension_start, Collected, push_interface, interface_object, parse_object, parse_objects,
  ParsedIcmpExtensions, no_extensions, none_if_empty, parse_icmp_extensions,
}

-- A role's number in RFC 5837.
abbrev pub role_val : InterfaceRole → ℕ
role_val incoming_ip = 0
role_val sub_ip_component = 1
role_val outgoing_ip = 2
role_val ip_next_hop = 3

-- How many of the interfaces have the role of number `v`.
abbrev pub role_count : ℕ → List IcmpInterfaceInfo → ℕ
role_count v [] = 0
role_count v (info ∷ infos) = (if role_val info.role == v then 1 else 0) + role_count v infos

role_count-append :
    (v : ℕ) (xs : List IcmpInterfaceInfo) (x : IcmpInterfaceInfo)
    → role_count v (xs ++ (x ∷ [])) ≡ role_count v xs + (if role_val x.role == v then 1 else 0)
role_count-append v [] x = omega arith
role_count-append v (y ∷ xs) x = omega (arith, role_count-append v xs x)

abbrev lacks : ℕ → ℕ → Bool
lacks seen v = bit_and seen (2 ^ v) == 0

-- Setting the bit of `w` in a mask of four bits sets that bit and keeps the others.
abbrev sets_bit : ℕ → ℕ → ℕ → Bool
sets_bit s w v =
    ltb (bit_or s (2 ^ w)) 16
    && (if lacks (bit_or s (2 ^ w)) v
        then not (w == v) && lacks s v
        else if w == v
        then true
        else not (lacks s v))

abbrev sets_bits : ℕ → ℕ → Bool
sets_bits s w = every (sets_bit s w) 4

bits_table : every (λ s. every (sets_bits s) 4) 16 ≡ true
unfolding every
bits_table = refl

bits : (s w v : ℕ) → s < 16 → w < 4 → v < 4 → sets_bit s w v ≡ true
bits s w v hs hw hv =
    let row =
      at_every (sets_bits s) w 4 hw (at_every (λ s. every (sets_bits s) 4) s 16 hs bits_table) in
    at_every (sets_bit s w) v 4 hv row

-- The mask records the role `v` if an interface of that role was kept, and there is at most one.
record Once (v : ℕ) (c : Collected) : Type 0 where
  mask : c.seen_roles < 16
  single : role_count v c.interfaces ≤ 1
  recorded : lacks c.seen_roles v ≡ true → role_count v c.interfaces ≡ 0

role_val-role_of : (w : ℕ) → w < 4 → role_val (role_of w) ≡ w
role_val-role_of w h = ground arith

parse_interface-role :
    (text : Bytes → Bytes) (t : ℕ) (bs : Bytes) (info : IcmpInterfaceInfo)
    → parse_interface text t bs ≡ parsed (some info)
    → info.role ≡ role_of (t / 64 % 4)
unfolding parse_interface
parse_interface-role text t bs info h = ground arith

push_interface-Once :
    (v w : ℕ) (c : Collected) (info : Option IcmpInterfaceInfo)
    → v < 4
    → w < 4
    → Once v c
    → lacks c.seen_roles w ≡ true
    → ((i : IcmpInterfaceInfo) → info ≡ some i → i.role ≡ role_of w)
    → Once v (push_interface (record c { seen_roles = bit_or c.seen_roles (2 ^ w) }) info)
push_interface-Once v w c none hv hw o l h = ground (arith, bits c.seen_roles w v)
push_interface-Once v w c (some i) hv hw o l h =
    ground (
      arith,
      bits c.seen_roles w v,
      role_count-append v c.interfaces i,
      role_val-role_of w,
      h i refl,
    )

parsed-injective : (a b : Collected) → ◌≡◌ {A = Outcome Collected} (parsed a) (parsed b) → a ≡ b
parsed-injective a b e = cc

interface_object-Once :
    (text : Bytes → Bytes) (v t : ℕ) (bs : Bytes) (c c' : Collected)
    → v < 4
    → Once v c
    → interface_object text t bs c ≡ parsed c'
    → Once v c'
unfolding interface_object
interface_object-Once text v t bs c c' hv o e =
    elim (Bool-cases (lacks c.seen_roles (t / 64 % 4))) [
      | inl l ↦
          push (parse_interface text t bs) (parse_interface-role text t bs)
            (rw (l, interface_object) at e) l
      | inr seen ↦ subst (Once v) (parsed-injective c c' (rw (seen, interface_object) at e)) o
    ]
  where
    push :
        (m : Outcome (Option IcmpInterfaceInfo))
        → ((i : IcmpInterfaceInfo) → m ≡ parsed (some i) → i.role ≡ role_of (t / 64 % 4))
        → (m >>= λ info. parsed (
            push_interface (record c { seen_roles = bit_or c.seen_roles (2 ^ (t / 64 % 4)) }) info))
          ≡ parsed c'
        → lacks c.seen_roles (t / 64 % 4) ≡ true
        → Once v c'
    push (parsed info) role e l = subst (Once v) (parsed-injective _ c' e) (
        push_interface-Once v (t / 64 % 4) c info hv (omega arith) o l
          (λ i p. role i (ap parsed p)))
    push rejected role e l = cc
    push panicked role e l = cc

parse_object-Once :
    (text : Bytes → Bytes) (v k t : ℕ) (bs : Bytes) (c c' : Collected)
    → v < 4
    → Once v c
    → parse_object text k t bs c ≡ parsed c'
    → Once v c'
unfolding parse_object
parse_object-Once text v k t bs c c' hv o e =
    ground (arith, interface_object-Once text v t bs c c' hv o)

parse_objects-Once :
    (text : Bytes → Bytes) (v fuel : ℕ) (bs : Bytes) (offset : ℕ) (c c' : Collected)
    → v < 4
    → Once v c
    → parse_objects text fuel bs offset c ≡ parsed c'
    → Once v c'
unfolding parse_objects
parse_objects-Once text v zero bs offset c c' hv o e = cc
parse_objects-Once text v (suc fuel) bs offset c c' hv o e =
    elim (Bool-cases (leb (offset + 4) (length bs))) [
      | inr ends ↦ subst (Once v) (parsed-injective c c' (rw (ends, parse_objects) at e)) o
      | inl more ↦
          let (n, _, e1) = >>=-eq-parsed (be16_at bs offset) _ (rw (more, parse_objects) at e) in
          let (k, _, e2) = >>=-eq-parsed (byte bs (offset + 2)) _ e1 in
          let (t, _, e3) = >>=-eq-parsed (byte bs (offset + 3)) _ e2 in
          elim (Bool-cases (ltb n 4 || ltb (length bs) (offset + n))) [
            | inl stops ↦ subst (Once v) (parsed-injective c c' (rw stops at e3)) o
            | inr whole ↦
                let (p, _, e4) =
                  >>=-eq-parsed (slice bs (offset + 4) (offset + n)) _ (rw whole at e3) in
                let (c'', q, e5) = >>=-eq-parsed (parse_object text k t p c) _ e4 in
                parse_objects-Once text v fuel bs (offset + n) c'' c' hv
                  (parse_object-Once text v k t p c c'' hv o q) e5
          ]
    ]

none_if_empty-count :
    (v : ℕ) (xs infos : List IcmpInterfaceInfo)
    → none_if_empty xs ≡ some infos
    → role_count v infos ≡ role_count v xs
none_if_empty-count v [] infos e = cc
none_if_empty-count v (x ∷ xs) infos e = cc

-- What the loop collected is what is returned.
returned-count :
    (v : ℕ) (c : Collected) (exts : ParsedIcmpExtensions) (infos : List IcmpInterfaceInfo)
    → Once v c
    → ◌≡◌ {A = Outcome ParsedIcmpExtensions}
        (parsed (record {
          mpls_labels = none_if_empty c.labels;
          interface_info = none_if_empty c.interfaces;
        }))
        (parsed exts)
    → exts.interface_info ≡ some infos
    → role_count v infos ≤ 1
returned-count v c exts infos o e i =
    let j : none_if_empty c.interfaces ≡ some infos = cc in
    omega (arith, none_if_empty-count v c.interfaces infos j, o.single)

-- Whatever the packet holds, the interface list that is read from it has at most one entry for
-- each of the four roles.
pub parse_icmp_extensions-roles :
    (text : Bytes → Bytes) (icmp_payload : Bytes) (icmp_length : ℕ) (is_ipv6 : Bool)
    (exts : ParsedIcmpExtensions) (infos : List IcmpInterfaceInfo) (v : ℕ)
    → parse_icmp_extensions text icmp_payload icmp_length is_ipv6 ≡ parsed exts
    → exts.interface_info ≡ some infos
    → v < 4
    → role_count v infos ≤ 1
unfolding parse_icmp_extensions
parse_icmp_extensions-roles text bs n six exts infos v e i hv =
    let from = extension_start text n six in
    elim (Bool-cases (ltb (length bs) (from + 4))) [
      | inl short ↦ absurd (some_of_none (rw (short, parse_icmp_extensions) at e))
      | inr long ↦
          let (hdr, _, e1) =
            >>=-eq-parsed (slice_from bs from) _ (rw (long, parse_icmp_extensions) at e) in
          let (first, _, e2) = >>=-eq-parsed (byte hdr 0) _ e1 in
          elim (Bool-cases (first / 16 % 16 == 2)) [
            | inr other ↦ absurd (some_of_none (rw other at e2))
            | inl two ↦
                let (c, q, e3) =
                  >>=-eq-parsed (parse_objects text (length hdr) hdr 4 empty) _ (rw two at e2) in
                returned-count v c exts infos
                  (parse_objects-Once text v (length hdr) hdr 4 empty c hv
                    (record { mask = omega arith; single = omega arith; recorded = λ _. refl }) q)
                  e3 i
          ]
    ]
  where
    empty : Collected
    empty = record { labels = []; interfaces = []; seen_roles = 0 }

    some_of_none : ◌≡◌ {A = Outcome ParsedIcmpExtensions} (parsed no_extensions) (parsed exts) → ⊥
    some_of_none p = let j : ◌≡◌ {A = Option (List IcmpInterfaceInfo)} none (some infos) = cc in cc
