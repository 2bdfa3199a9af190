-- ===== src/Tui/Settings/Tests.antt =====
-- The theorems on the settings, applied to a key with a character of two bytes.
use ttl.Base.{◌≡◌, refl, some, none, true, List, [], ◌∷◌, arith}
use ttl.Base.Texts.{Text}
use ttl.Tui.Settings.{
  compact, new_settings, Edit, typed, backspace, delete, left, right, edits, up, down, tab, enter,
  choose_all,
}
use ttl.Tui.Settings.Editing.{at_place, edits_zipper, end_of, edits-new_settings}
use ttl.Tui.Settings.Selection.{IsVisible, choose_all-new_settings}

-- "aé"
abbrev key : Text
key = 97 ∷ 233 ∷ []

abbrev some_edits : List Edit
some_edits = left ∷ typed 8364 ∷ right ∷ backspace ∷ left ∷ delete ∷ []

edits-new_settings_example :
    edits some_edits (new_settings 0 compact (some key))
    ≡ some (at_place (edits_zipper some_edits (end_of key)) (new_settings 0 compact (some key)))
edits-new_settings_example = edits-new_settings 0 compact (some key) some_edits

-- What is left is "a", and the cursor stands behind it.
edited :
    edits some_edits (new_settings 0 compact (some key))
    ≡ some (record (new_settings 0 compact (some key)) { api_key = 97 ∷ []; api_key_cursor = 1 })
unfolding edits new_settings
edited = refl

choose_all-new_settings_example :
    IsVisible true 11
      (choose_all true 11 (down ∷ down ∷ tab ∷ enter ∷ up ∷ []) (new_settings 4 compact none))
choose_all-new_settings_example =
    choose_all-new_settings true 11 4 compact none (down ∷ down ∷ tab ∷ enter ∷ up ∷ [])
      (omega arith) (omega arith)
