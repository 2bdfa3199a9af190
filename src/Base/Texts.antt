-- ===== src/Base/Texts.antt =====
-- Strings as the lists of their characters.
use Prim.Native.Nat.{ℕ, ◌+◌, ◌-◌, ◌*◌}
use mathlib.Core.Bool.{Bool, true, false, ◌&&◌}
use mathlib.Core.List.{List, [], ◌∷◌, map}
use mathlib.Core.Option.{Option, none, some}
use ttl.Base.Tests.{ltb, leb, ◌==◌, if◌then◌else◌}

abbrev pub Text : Type 0
Text = List ℕ

abbrev pub text_eq : Text → Text → Bool
text_eq [] [] = true
text_eq (c ∷ s) (d ∷ t) = (c == d) && text_eq s t
text_eq _ _ = false

-- `to_lowercase`, of the letters A to Z.
abbrev pub lower : ℕ → ℕ
lower c = if leb 65 c && leb c 90 then c + 32 else c

abbrev pub to_lowercase : Text → Text
to_lowercase s = map lower s

-- The number of bytes of the UTF-8 form of a character, and of a string: `len`.
abbrev pub len_utf8 : ℕ → ℕ
len_utf8 c = if ltb c 0x80 then 1 else if ltb c 0x800 then 2 else if ltb c 0x10000 then 3 else 4

abbrev pub byte_len : Text → ℕ
byte_len [] = 0
byte_len (c ∷ s) = len_utf8 c + byte_len s

-- `split_once`, at the first of a character.
abbrev pub split_once : ℕ → Text → Text × Option Text
split_once c [] = ([], none)
split_once c (d ∷ s) =
    let rest = split_once c s in if c == d then ([], some s) else (d ∷ rest.0, rest.1)

abbrev pub has_char : ℕ → Text → Bool
has_char c [] = false
has_char c (d ∷ s) = if c == d then true else has_char c s

-- `parse::<u32>()`: digits, with a plus sign before them or not.
abbrev pub digits : ℕ → Text → Option ℕ
digits n [] = some n
digits n (c ∷ s) =
    let next = n * 10 + (c - 48) in
    let rest = digits next s in if leb 48 c && leb c 57 && ltb next 4294967296 then rest else none

abbrev pub some_digits : Text → Option ℕ
some_digits [] = none
some_digits (c ∷ s) = digits 0 (c ∷ s)

abbrev pub parse_u32 : Text → Option ℕ
parse_u32 [] = none
parse_u32 (c ∷ s) = if c == 43 then some_digits s else some_digits (c ∷ s)
