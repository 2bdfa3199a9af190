-- ===== src/Tui/Settings/Editing.antt =====
-- tui/views/settings.rs, `SettingsState`: the key and its cursor as a text before the cursor and one
-- after it.
use mathlib.Core.List.{append-nil}
use ttl.Base.{
  ℕ, ◌+◌, ◌-◌, ◌≡◌, ◌∙◌, refl, sym, ap, true, false, Option, some, List, [], ◌∷◌, ◌++◌, leb, ltb,
  ◌>>=◌, arith,
}
use ttl.Base.Texts.{Text, len_utf8, byte_len}
use ttl.Tui.Settings.Boundaries.{
  len_utf8-bounds, split_at-here, boundary_before-start, boundary_after-end,
}
use ttl.Tui.Settings.{
  SettingsState, new_settings, or_empty, DisplayMode, split_at, boundary_before, boundary_after,
  handle_char, handle_backspace, handle_delete, move_cursor_left, move_cursor_right, Edit, typed,
  backspace, delete, left, right, edit, edits,
}

-- A text with a place in it: the characters before it, the last one first, and those after it.
pub record Zipper : Type 0 where
  pub before : Text
  pub after : Text

abbrev pub rev_append : Text → Text → Text
rev_append [] s = s
rev_append (c ∷ r) s = rev_append r (c ∷ s)

abbrev pub text_of : Zipper → Text
text_of z = rev_append z.before z.after

-- The edits, on characters.
abbrev pub drop_first : Text → Text
drop_first [] = []
drop_first (c ∷ s) = s

abbrev pub step_left : Text → Text → Zipper
step_left [] s = record { before = []; after = s }
step_left (c ∷ r) s = record { before = r; after = c ∷ s }

abbrev pub step_right : Text → Text → Zipper
step_right r [] = record { before = r; after = [] }
step_right r (c ∷ s) = record { before = c ∷ r; after = s }

abbrev pub edit_zipper : Edit → Zipper → Zipper
edit_zipper (typed c) z = record z { before = c ∷ z.before }
edit_zipper backspace z = record z { before = drop_first z.before }
edit_zipper delete z = record z { after = drop_first z.after }
edit_zipper left z = step_left z.before z.after
edit_zipper right z = step_right z.before z.after

pub edits_zipper : List Edit → Zipper → Zipper
edits_zipper [] z = z
edits_zipper (e ∷ es) z = edits_zipper es (edit_zipper e z)

-- The state with the key and the cursor of a place.
pub at_place : Zipper → SettingsState → SettingsState
at_place z s = record s { api_key = text_of z; api_key_cursor = byte_len z.before }

rev_append-append : (r s t : Text) → rev_append r (s ++ t) ≡ rev_append r s ++ t
rev_append-append [] s t = refl
rev_append-append (c ∷ r) s t = rev_append-append r (c ∷ s) t

byte_len-rev_append : (r s : Text) → byte_len (rev_append r s) ≡ byte_len r + byte_len s
byte_len-rev_append [] s = omega arith
byte_len-rev_append (c ∷ r) s = omega (arith, byte_len-rev_append r (c ∷ s))

-- The place cuts the text.
split_at-place : (r s : Text) → split_at (byte_len r) (rev_append r s) ≡ some (rev_append r [], s)
split_at-place r s =
    let whole : rev_append r s ≡ rev_append r [] ++ s = rev_append-append r [] s in
    let size : byte_len r ≡ byte_len (rev_append r []) = omega (arith, byte_len-rev_append r []) in
    ap (λ n. split_at n (rev_append r s)) size
    ∙ ap (split_at (byte_len (rev_append r []))) whole
    ∙ split_at-here (rev_append r []) s

joined : (r s : Text) → rev_append r [] ++ s ≡ rev_append r s
joined r s = sym (rev_append-append r [] s)

prev-place :
    (r s : Text) (c : ℕ)
    → boundary_before (rev_append r (c ∷ s)) (byte_len (c ∷ r) - 1) ≡ byte_len r
prev-place r s c =
    let some_bytes = (len_utf8-bounds c).0 in
    let size : byte_len r ≡ byte_len (rev_append r []) = omega (arith, byte_len-rev_append r []) in
    let at : byte_len (c ∷ r) - 1 ≡ byte_len (rev_append r []) + (len_utf8 c - 1) =
      omega (arith, some_bytes, size) in
    ap (boundary_before (rev_append r (c ∷ s))) at
    ∙ ap (λ t. boundary_before t (byte_len (rev_append r []) + (len_utf8 c - 1)))
        (sym (joined r (c ∷ s)))
    ∙ boundary_before-start (rev_append r []) s c (len_utf8 c - 1) (omega arith)
    ∙ sym size

next-place :
    (r s : Text) (c : ℕ)
    → boundary_after (rev_append r (c ∷ s)) (byte_len (rev_append r (c ∷ s))) (byte_len r + 1)
      ≡ byte_len (c ∷ r)
next-place r s c =
    let some_bytes = (len_utf8-bounds c).0 in
    let size : byte_len r ≡ byte_len (rev_append r []) = omega (arith, byte_len-rev_append r []) in
    let whole = byte_len-rev_append r (c ∷ s) in
    let n = byte_len (rev_append r (c ∷ s)) in
    let turned : byte_len (rev_append r []) + len_utf8 c ≡ byte_len (c ∷ r) = omega (arith, size) in
    ap (λ k. boundary_after (rev_append r (c ∷ s)) n (k + 1)) size
    ∙ ap (λ t. boundary_after t n (byte_len (rev_append r []) + 1)) (sym (joined r (c ∷ s)))
    ∙ boundary_after-end (rev_append r []) s c n 1 (len_utf8 c - 1) (omega arith) (omega arith)
        (omega (arith, whole))
    ∙ turned

bytes_before : (c : ℕ) (r : Text) → ltb 0 (byte_len (c ∷ r)) ≡ true
bytes_before c r = ground (arith, (len_utf8-bounds c).0)

bytes_after : (r s : Text) (c : ℕ) → ltb (byte_len r) (byte_len (rev_append r (c ∷ s))) ≡ true
bytes_after r s c = ground (arith, (len_utf8-bounds c).0, byte_len-rev_append r (c ∷ s))

no_bytes_after : (r : Text) → ltb (byte_len r) (byte_len (rev_append r [])) ≡ false
no_bytes_after r = ground (arith, byte_len-rev_append r [])

edit-at_place :
    (e : Edit) (r a : Text) (s : SettingsState)
    → edit e (at_place (record { before = r; after = a }) s)
      ≡ some (at_place (edit_zipper e (record { before = r; after = a })) s)
unfolding edit handle_char handle_backspace handle_delete move_cursor_left move_cursor_right
    at_place
edit-at_place (typed c) r a s =
    let turned : byte_len r + len_utf8 c ≡ len_utf8 c + byte_len r = omega arith in
    rw (split_at-place r a, turned, joined r (c ∷ a)) refl
edit-at_place backspace [] a s = refl
edit-at_place backspace (c ∷ r) a s =
    rw (bytes_before c r, prev-place r a c, split_at-place r (c ∷ a), joined r a) refl
edit-at_place delete r [] s = rw (no_bytes_after r) refl
edit-at_place delete r (c ∷ a) s =
    let on : leb (byte_len r) (byte_len (c ∷ r)) ≡ true = ground arith in
    rw
      (
        bytes_after r a c,
        next-place r a c,
        split_at-place r (c ∷ a),
        split_at-place (c ∷ r) a,
        on,
        joined r a,
      )
      refl
edit-at_place left [] a s = refl
edit-at_place left (c ∷ r) a s = rw (bytes_before c r, prev-place r a c) refl
edit-at_place right r [] s = rw (no_bytes_after r) refl
edit-at_place right r (c ∷ a) s = rw (bytes_after r a c, next-place r a c) refl

edits-at_place :
    (es : List Edit) (z : Zipper) (s : SettingsState)
    → edits es (at_place z s) ≡ some (at_place (edits_zipper es z) s)
unfolding edits edits_zipper
edits-at_place [] z s = refl
edits-at_place (e ∷ es) z s =
    ap (λ o. o >>= edits es) (edit-at_place e z.before z.after s)
    ∙ edits-at_place es (edit_zipper e z) s

rev_append_twice : (r s t : Text) → rev_append (rev_append r s) t ≡ rev_append s (r ++ t)
rev_append_twice [] s t = refl
rev_append_twice (c ∷ r) s t = rev_append_twice r (c ∷ s) t

-- The place at the end of a text.
abbrev pub end_of : Text → Zipper
end_of t = record { before = rev_append t []; after = [] }

-- The API key of a new settings state, edited: whatever keys come, no edit panics at an offset that
-- is no boundary of a character, whatever the characters are, and the key and the cursor are those
-- of the same edits on the characters before and after a place that begins at the end: typing puts
-- a character before it, backspace drops the one before it and delete the one after it, and left
-- and right pass one.
pub edits-new_settings :
    (theme_index : ℕ) (mode : DisplayMode) (key : Option Text) (es : List Edit)
    → edits es (new_settings theme_index mode key)
      ≡ some
          (at_place (edits_zipper es (end_of (or_empty key))) (new_settings theme_index mode key))
unfolding new_settings at_place
edits-new_settings theme_index mode key es =
    let t = or_empty key in
    let new = new_settings theme_index mode key in
    let text : rev_append (rev_append t []) [] ≡ t = rev_append_twice t [] [] ∙ append-nil t in
    let size : byte_len (rev_append t []) ≡ byte_len t = omega (arith, byte_len-rev_append t []) in
    let same : new ≡ at_place (end_of t) new =
      λ i. record new { api_key = sym text i; api_key_cursor = sym size i } in
    ap (edits es) same ∙ edits-at_place es (end_of t) new
