-- ===== src/Tui/Replay/Keys.antt =====
-- tui/app.rs, the replay: which keys come in a run.
use ttl.Base.{ℕ, List, [], ◌∷◌}
use ttl.Base.Float.{Float}
use ttl.State.Session.{Clock}
use ttl.Tui.Replay.{Command, ticks, toggles, to_end, resets, seeks_to, seeks_by, speeds_by}

module _ (f32 f64 : Float) (widen : f32.F64 → f64.F64) where
  -- The key r comes only where `P` allows it.
  abbrev pub Allows : (ℕ → Type 0) → Command f32 f64 widen → Type 0
  Allows P resets = (i : ℕ) → P i
  Allows P ticks = Unit
  Allows P toggles = Unit
  Allows P to_end = Unit
  Allows P (seeks_to ms) = Unit
  Allows P (seeks_by delta) = Unit
  Allows P (speeds_by delta) = Unit

  abbrev pub AllAllow : (ℕ → Type 0) → List (Clock × Command f32 f64 widen) → Type 0
  AllAllow P [] = Unit
  AllAllow P ((clock, command) ∷ rest) = Allows P command × AllAllow P rest

  allowed_anywhere : (command : Command f32 f64 widen) → Allows (λ _. Unit) command
  allowed_anywhere resets = λ i. tt
  allowed_anywhere ticks = tt
  allowed_anywhere toggles = tt
  allowed_anywhere to_end = tt
  allowed_anywhere (seeks_to ms) = tt
  allowed_anywhere (seeks_by delta) = tt
  allowed_anywhere (speeds_by delta) = tt

  pub all_allowed :
      (commands : List (Clock × Command f32 f64 widen)) → AllAllow (λ _. Unit) commands
  all_allowed [] = tt
  all_allowed ((clock, command) ∷ rest) = (allowed_anywhere command, all_allowed rest)

  -- The key r is not among the keys.
  abbrev pub IsKept : Command f32 f64 widen → Type 0
  IsKept resets = ⊥
  IsKept ticks = Unit
  IsKept toggles = Unit
  IsKept to_end = Unit
  IsKept (seeks_to ms) = Unit
  IsKept (seeks_by delta) = Unit
  IsKept (speeds_by delta) = Unit

  abbrev pub AllKept : List (Clock × Command f32 f64 widen) → Type 0
  AllKept [] = Unit
  AllKept ((clock, command) ∷ rest) = IsKept command × AllKept rest

  kept_allowed :
      (P : ℕ → Type 0) (command : Command f32 f64 widen) → IsKept command → Allows P command
  kept_allowed P resets k = absurd k
  kept_allowed P ticks k = tt
  kept_allowed P toggles k = tt
  kept_allowed P to_end k = tt
  kept_allowed P (seeks_to ms) k = tt
  kept_allowed P (seeks_by delta) k = tt
  kept_allowed P (speeds_by delta) k = tt

  pub AllKept-AllAllow :
      (P : ℕ → Type 0) (commands : List (Clock × Command f32 f64 widen))
      → AllKept commands
      → AllAllow P commands
  AllKept-AllAllow P [] k = tt
  AllKept-AllAllow P ((clock, command) ∷ rest) k =
      (kept_allowed P command k.0, AllKept-AllAllow P rest k.1)
