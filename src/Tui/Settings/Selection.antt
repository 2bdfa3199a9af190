-- ===== src/Tui/Settings/Selection.antt =====
-- tui/views/settings.rs, `SettingsState`: the selected theme and the window of five that is shown.
use ttl.Base.{ℕ, ◌+◌, ◌≤◌, ◌<◌, Bool, Option, List, [], ◌∷◌, if◌then◌else◌, arith}
use ttl.Base.Texts.{Text}
use ttl.Tui.Settings.{
  SettingsState, DisplayMode, new_settings, move_up, move_down, next_section, select, Choice, up,
  down, tab, enter, choose, choose_all,
}

-- The selected theme is one of the themes and in the window, and the section is one of those shown.
pub record IsVisible (ix_enabled : Bool) (theme_count : ℕ) (s : SettingsState) : Type 0 where
  pub index : s.theme_index < theme_count
  pub above : s.theme_scroll ≤ s.theme_index
  pub below : s.theme_index < s.theme_scroll + 5
  pub section : s.selected_section < (if ix_enabled then 4 else 3)

module _ (ix_enabled : Bool) (n : ℕ) where
  move_up-IsVisible :
      (s : SettingsState) → IsVisible ix_enabled n s → IsVisible ix_enabled n (move_up s)
  unfolding move_up
  move_up-IsVisible s v = record {
    index = ground (arith, v.index);
    above = ground (arith, v.above);
    below = ground (arith, v.above, v.below);
    section = ground (arith, v.section);
  }

  move_down-IsVisible :
      (s : SettingsState) → IsVisible ix_enabled n s → IsVisible ix_enabled n (move_down n s)
  unfolding move_down
  move_down-IsVisible s v = record {
    index = ground (arith, v.index);
    above = ground (arith, v.above);
    below = ground (arith, v.above, v.below);
    section = ground (arith, v.section);
  }

  choose-IsVisible :
      (c : Choice) (s : SettingsState)
      → IsVisible ix_enabled n s
      → IsVisible ix_enabled n (choose ix_enabled n c s)
  unfolding choose next_section select
  choose-IsVisible up s v = move_up-IsVisible s v
  choose-IsVisible down s v = move_down-IsVisible s v
  choose-IsVisible tab s v = record {
    index = v.index;
    above = v.above;
    below = v.below;
    section = ground (arith, v.section);
  }
  choose-IsVisible enter s v = record {
    index = ground (arith, v.index);
    above = ground (arith, v.above);
    below = ground (arith, v.below);
    section = ground (arith, v.section);
  }

  choose_all-IsVisible :
      (cs : List Choice) (s : SettingsState)
      → IsVisible ix_enabled n s
      → IsVisible ix_enabled n (choose_all ix_enabled n cs s)
  unfolding choose_all
  choose_all-IsVisible [] s v = v
  choose_all-IsVisible (c ∷ cs) s v =
      choose_all-IsVisible cs (choose ix_enabled n c s) (choose-IsVisible c s v)

  -- In settings that open on one of the first five themes, whatever choices follow: the selected
  -- theme is one of the themes and in the window of five that is shown, and the section is one of
  -- those that are shown.
  pub choose_all-new_settings :
      (theme_index : ℕ) (mode : DisplayMode) (key : Option Text) (cs : List Choice)
      → theme_index < n
      → theme_index < 5
      → IsVisible ix_enabled n (choose_all ix_enabled n cs (new_settings theme_index mode key))
  unfolding new_settings
  choose_all-new_settings theme_index mode key cs h1 h2 =
      choose_all-IsVisible cs (new_settings theme_index mode key)
        (record { index = h1; above = omega arith; below = omega arith; section = ground arith })
