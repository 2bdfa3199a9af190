-- ===== src/Tui/Settings.antt =====
-- tui/views/settings.rs, `SettingsState`: the modal's selections and the editing of the API key. The
-- key is its list of characters and the cursor is an offset in its UTF-8 bytes, as in the source; an
-- offset that is no boundary of a character, where `String` panics, is the `none` of the functions
-- that return an Option.
mod Boundaries
mod Editing
mod Selection
mod Tests
use ttl.Base.{
  ℕ, zero, suc, ◌+◌, ◌-◌, ◌%◌, Bool, true, false, not, ◌&&◌, Option, none, some, List, [], ◌∷◌,
  ◌++◌, leb, ltb, ◌==◌, is_some, ◌>>=◌, if◌then◌else◌,
}
use ttl.Base.Texts.{Text, len_utf8, byte_len}

-- `DisplayMode` of prefs.rs.
pub data DisplayMode : Type 0 where
  auto compact wide : DisplayMode

abbrev pub next_mode : DisplayMode → DisplayMode
next_mode auto = compact
next_mode compact = wide
next_mode wide = auto

pub record SettingsState : Type 0 where
  pub selected_section : ℕ
  pub theme_scroll : ℕ
  pub theme_index : ℕ
  pub display_mode : DisplayMode
  pub api_key : Text
  pub api_key_cursor : ℕ
  pub update_check : Bool

abbrev pub or_empty : Option Text → Text
or_empty none = []
or_empty (some key) = key

pub new_settings : ℕ → DisplayMode → Option Text → SettingsState
new_settings theme_index display_mode api_key = record {
  selected_section = 0;
  theme_scroll = 0;
  theme_index = theme_index;
  display_mode = display_mode;
  api_key = or_empty api_key;
  api_key_cursor = byte_len (or_empty api_key);
  update_check = true;
}

-- A string cut at a byte offset, which is a boundary of its characters.
pub split_at : ℕ → Text → Option (Text × Text)
split_at zero s = some ([], s)
split_at (suc n) [] = none
split_at (suc n) (c ∷ s) =
    let rest = split_at (suc n - len_utf8 c) s in
    if leb (len_utf8 c) (suc n) then rest >>= (λ r. some (c ∷ r.0, r.1)) else none

abbrev pub is_char_boundary : ℕ → Text → Bool
is_char_boundary n s = is_some (split_at n s)

-- `String::insert`, `String::remove` and `String::replace_range` with an empty text.
abbrev pub insert_char : ℕ → ℕ → Text → Option Text
insert_char n c s = split_at n s >>= λ (r : Text × Text). some (r.0 ++ (c ∷ r.1))

abbrev pub without_first : Text → Text → Option Text
without_first before [] = none
without_first before (c ∷ s) = some (before ++ s)

abbrev pub remove_char : ℕ → Text → Option Text
remove_char n s = split_at n s >>= λ (r : Text × Text). without_first r.0 r.1

abbrev pub remove_range : ℕ → ℕ → Text → Option Text
remove_range from to s = split_at from s >>= λ (r : Text × Text).
    split_at to s >>= λ (q : Text × Text). if leb from to then some (r.0 ++ q.1) else none

-- `while prev > 0 && !is_char_boundary(prev) { prev -= 1 }`.
pub boundary_before : Text → ℕ → ℕ
boundary_before s zero = zero
boundary_before s (suc n) =
    let rest = boundary_before s n in if is_char_boundary (suc n) s then suc n else rest

-- `while next < len && !is_char_boundary(next) { next += 1 }`, which ends after the bytes left.
pub boundary_after : Text → ℕ → ℕ → ℕ
boundary_after s zero next = next
boundary_after s (suc left) next =
    let rest = boundary_after s left (next + 1) in
    if ltb next (byte_len s) && not (is_char_boundary next s) then rest else next

pub handle_char : ℕ → SettingsState → Option SettingsState
unfolding split_at
handle_char c s = insert_char s.api_key_cursor c s.api_key >>= λ key.
    some (record s { api_key = key; api_key_cursor = s.api_key_cursor + len_utf8 c })

pub handle_backspace : SettingsState → Option SettingsState
unfolding split_at boundary_before
handle_backspace s =
    let prev = boundary_before s.api_key (s.api_key_cursor - 1) in
    let removed = remove_char prev s.api_key in
    if ltb 0 s.api_key_cursor
    then removed >>= (λ key. some (record s { api_key = key; api_key_cursor = prev }))
    else some s

-- The end of the character at the cursor.
abbrev pub char_end : SettingsState → ℕ
char_end s = boundary_after s.api_key (byte_len s.api_key) (s.api_key_cursor + 1)

pub handle_delete : SettingsState → Option SettingsState
unfolding split_at boundary_after
handle_delete s =
    let removed = remove_range s.api_key_cursor (char_end s) s.api_key in
    if ltb s.api_key_cursor (byte_len s.api_key)
    then removed >>= (λ key. some (record s { api_key = key }))
    else some s

pub move_cursor_left : SettingsState → SettingsState
unfolding boundary_before
move_cursor_left s =
    if ltb 0 s.api_key_cursor
    then record s { api_key_cursor = boundary_before s.api_key (s.api_key_cursor - 1) }
    else s

pub move_cursor_right : SettingsState → SettingsState
unfolding boundary_after
move_cursor_right s =
    if ltb s.api_key_cursor (byte_len s.api_key)
    then record s { api_key_cursor = char_end s }
    else s

-- An edit of the key.
pub data Edit : Type 0 where
  typed : ℕ → Edit
  backspace delete left right : Edit

pub edit : Edit → SettingsState → Option SettingsState
unfolding handle_char handle_backspace handle_delete move_cursor_left move_cursor_right
edit (typed c) s = handle_char c s
edit backspace s = handle_backspace s
edit delete s = handle_delete s
edit left s = some (move_cursor_left s)
edit right s = some (move_cursor_right s)

pub edits : List Edit → SettingsState → Option SettingsState
unfolding edit
edits [] s = some s
edits (e ∷ es) s = edit e s >>= λ t. edits es t

abbrev pub update_check_section : Bool → ℕ
update_check_section ix_enabled = if ix_enabled then 3 else 2

pub move_up : SettingsState → SettingsState
move_up s =
    let index = s.theme_index - 1 in
    if s.selected_section == 0 && ltb 0 s.theme_index
    then record s {
      theme_index = index;
      theme_scroll = if ltb index s.theme_scroll then index else s.theme_scroll;
    }
    else s

pub move_down : ℕ → SettingsState → SettingsState
move_down theme_count s =
    let index = s.theme_index + 1 in
    if s.selected_section == 0 && ltb 0 theme_count && ltb index theme_count
    then record s {
      theme_index = index;
      theme_scroll = if leb (s.theme_scroll + 5) index then index - 5 + 1 else s.theme_scroll;
    }
    else s

pub next_section : Bool → SettingsState → SettingsState
next_section ix_enabled s = record s {
  selected_section = (s.selected_section + 1) % (if ix_enabled then 4 else 3);
}

pub select : SettingsState → SettingsState
select s =
    if s.selected_section == 1 then record s { display_mode = next_mode s.display_mode } else s

-- A key of the sections without text.
pub data Choice : Type 0 where
  up down tab enter : Choice

pub choose : Bool → ℕ → Choice → SettingsState → SettingsState
unfolding move_up move_down next_section select
choose ix_enabled theme_count up s = move_up s
choose ix_enabled theme_count down s = move_down theme_count s
choose ix_enabled theme_count tab s = next_section ix_enabled s
choose ix_enabled theme_count enter s =
    if s.selected_section == update_check_section ix_enabled
    then record s { update_check = not s.update_check }
    else select s

pub choose_all : Bool → ℕ → List Choice → SettingsState → SettingsState
unfolding choose
choose_all ix_enabled theme_count [] s = s
choose_all ix_enabled theme_count (c ∷ cs) s =
    choose_all ix_enabled theme_count cs (choose ix_enabled theme_count c s)
