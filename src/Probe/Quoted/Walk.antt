-- ===== src/Probe/Quoted/Walk.antt =====
-- probe/correlate.rs: the walk over IPv6 extension headers, on fuel. The `loop` ends because every
-- header is at least eight bytes long and must lie within the packet.
use ttl.Base.{
  ℕ, zero, suc, ◌+◌, ◌*◌, ◌≤◌, ◌<◌, ◌≡◌, Bool, true, false, ◌||◌, Option, none, some, ltb, ◌==◌,
  length, get_or, ◌≢◌, arith, if◌then◌else◌,
}
use ttl.Base.Bytes.{Bytes}
use ttl.Probe.Outcome.{Outcome, parsed, panicked, ◌>>=◌, byte, succeeds}
use ttl.Probe.Outcome.Access.{byte-parsed}

-- Hop-by-hop options, routing, destination options.
abbrev pub is_extension : ℕ → Bool
is_extension next_header = next_header == 0 || next_header == 43 || next_header == 60

-- `finish` is what the walk does at a header that is no extension.
pub walk {ℓ} : {B : Type ℓ} → (ℕ → ℕ → Option B) → ℕ → Bytes → ℕ → ℕ → Outcome (Option B)
walk finish zero bytes next_header offset = panicked
walk finish (suc fuel) bytes next_header offset = elim (is_extension next_header) [
  | false ↦ parsed (finish offset next_header)
  | true ↦ elim (ltb (length bytes) (offset + 2)) [
    | true ↦ parsed none
    | false ↦ do
      next_header' ← byte bytes offset
      ext_len ← byte bytes (offset + 1)
      let offset' : ℕ = offset + (ext_len + 1) * 8
      elim (ltb (length bytes) offset') [
        | true ↦ parsed none
        | false ↦ walk finish fuel bytes next_header' offset'
      ]
  ]
]

-- Only ICMPv6 is accepted as the upper layer.
abbrev at_icmpv6 : ℕ → ℕ → Option ℕ
at_icmpv6 offset next_header = if next_header == 58 then some offset else none

-- Any transport is accepted, but no fragment (44) and no missing payload (59).
abbrev at_transport : ℕ → ℕ → Option (ℕ × ℕ)
at_transport offset next_header =
    if next_header == 44 || next_header == 59 then none else some (offset, next_header)

pub skip_ipv6_extension_headers : Bytes → Outcome (Option ℕ)
unfolding walk
skip_ipv6_extension_headers bytes = elim (ltb (length bytes) 40) [
  | true ↦ parsed none
  | false ↦ do next_header ← byte bytes 6; walk at_icmpv6 (length bytes) bytes next_header 40
]

pub skip_ipv6_ext_headers_quoted : Bytes → Outcome (Option (ℕ × ℕ))
unfolding walk
skip_ipv6_ext_headers_quoted bytes = elim (ltb (length bytes) 40) [
  | true ↦ parsed none
  | false ↦ do next_header ← byte bytes 6; walk at_transport (length bytes) bytes next_header 40
]

walk-succeeds {ℓ} :
    {B : Type ℓ} (finish : ℕ → ℕ → Option B) (fuel : ℕ) (bytes : Bytes) (next_header offset : ℕ)
    → offset ≤ length bytes
    → length bytes < offset + fuel
    → succeeds (walk finish fuel bytes next_header offset) ≡ true
unfolding walk
walk-succeeds finish zero bytes nh offset h n = absurd (omega arith)
walk-succeeds finish (suc fuel) bytes nh offset h n = grind (
  arith,
  byte-parsed bytes offset,
  byte-parsed bytes (offset + 1),
  walk-succeeds finish fuel bytes,
)

-- Both walks end and stay within the packet, whatever the packet holds.
pub skip-succeeds :
    (bytes : Bytes)
    → (succeeds (skip_ipv6_extension_headers bytes) ≡ true)
      × (succeeds (skip_ipv6_ext_headers_quoted bytes) ≡ true)
unfolding skip_ipv6_extension_headers skip_ipv6_ext_headers_quoted
skip-succeeds bytes = (
  grind (arith, byte-parsed bytes 6, walk-succeeds at_icmpv6 (length bytes) bytes),
  grind (arith, byte-parsed bytes 6, walk-succeeds at_transport (length bytes) bytes),
)

walk-plain :
    (fuel : ℕ) (bytes : Bytes) (next_header offset : ℕ)
    → 0 < fuel
    → is_extension next_header ≡ false
    → next_header ≢ 44
    → next_header ≢ 59
    → walk at_transport fuel bytes next_header offset ≡ parsed (some (offset, next_header))
unfolding walk
walk-plain zero bytes nh offset h e f m = absurd (omega arith)
walk-plain (suc fuel) bytes nh offset h e f m = ground arith

-- Without extension headers the transport starts behind the fixed header.
pub skip-plain :
    (bytes : Bytes) (next_header : ℕ)
    → 40 ≤ length bytes
    → get_or bytes 6 0 ≡ next_header
    → is_extension next_header ≡ false
    → next_header ≢ 44
    → next_header ≢ 59
    → skip_ipv6_ext_headers_quoted bytes ≡ parsed (some (40, next_header))
unfolding skip_ipv6_ext_headers_quoted
skip-plain bytes nh h u e f m =
    ground (arith, byte-parsed bytes 6, walk-plain (length bytes) bytes nh 40)
