-- ===== src/Probe/Mpls/Stack.antt =====
-- A label stack laid out as RFC 4950 says is read back, down to its bottom entry.
use ttl.Base.{ℕ, ◌+◌, ◌*◌, ◌/◌, ◌%◌, ◌<◌, ◌≡◌, true, false, List, [], ◌∷◌, arith, if◌then◌else◌}
use ttl.Base.Bytes.{Bytes}
use ttl.Probe.Mpls.{MplsLabel, from_bytes, stack_labels}

-- The ranges of an entry's fields: 20, 3, 1 and 8 bits.
pub record IsLabel (l : MplsLabel) : Type 0 where
  pub label_20 : l.label < 1048576
  pub exp_3 : l.exp < 8
  pub ttl_8 : l.ttl < 256

word : MplsLabel → ℕ
word l = l.label * 4096 + l.exp * 512 + (if l.bottom then 256 else 0) + l.ttl

-- The four bytes of an entry, in network order, in front of `rest`.
pub encode : MplsLabel → Bytes → Bytes
unfolding word
encode l rest =
    (word l / 16777216) ∷ (word l / 65536 % 256) ∷ (word l / 256 % 256) ∷ (word l % 256) ∷ rest

-- A stack: entries of which only the last has its bottom flag set.
abbrev pub IsStack : List MplsLabel → Type 0
IsStack [] = ⊥
IsStack (l ∷ []) = IsLabel l × (l.bottom ≡ true)
IsStack (l ∷ l' ∷ ls) = IsLabel l × (l.bottom ≡ false) × IsStack (l' ∷ ls)

pub encode_stack : List MplsLabel → Bytes → Bytes
encode_stack [] rest = rest
encode_stack (l ∷ ls) rest = encode l (encode_stack ls rest)

-- Every four bytes decode to fields within their ranges.
pub from_bytes-IsLabel :
    (a b c d : ℕ) → a < 256 → b < 256 → c < 256 → d < 256 → IsLabel (from_bytes a b c d)
unfolding from_bytes
from_bytes-IsLabel a b c d ha hb hc hd = ground arith

from_bytes-word :
    (l : MplsLabel)
    → IsLabel l
    → from_bytes (word l / 16777216) (word l / 65536 % 256) (word l / 256 % 256) (word l % 256) ≡ l
unfolding from_bytes word
from_bytes-word l h = ground arith

stack_labels-encode :
    (l : MplsLabel) (rest : Bytes)
    → IsLabel l
    → stack_labels (encode l rest) ≡ l ∷ (if l.bottom then [] else stack_labels rest)
unfolding stack_labels encode
stack_labels-encode l rest h = ground (arith, from_bytes-word l h)

-- The loop reads back a whole encoded stack, and nothing of what follows its bottom entry.
pub stack_labels-encode_stack :
    (ls : List MplsLabel) (rest : Bytes) → IsStack ls → stack_labels (encode_stack ls rest) ≡ ls
unfolding encode_stack
stack_labels-encode_stack [] rest h = elim h [ ]
stack_labels-encode_stack (l ∷ []) rest (h, e) = ground (arith, stack_labels-encode l rest h)
stack_labels-encode_stack (l ∷ l' ∷ ls) rest (h, e, t) = ground (
  arith,
  stack_labels-encode l (encode_stack (l' ∷ ls) rest) h,
  stack_labels-encode_stack (l' ∷ ls) rest t,
)
