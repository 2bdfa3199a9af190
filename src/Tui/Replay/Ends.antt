-- ===== src/Tui/Replay/Ends.antt =====
-- tui/app.rs, the replay: the last of sorted events is the latest.
use ttl.Base.{
  ℕ, ◌≤◌, ◌≡◌, ◌∙◌, refl, sym, ap, List, [], ◌∷◌, keep, leb, arith, Bool-cases, inl, inr, ◌⊎◌, min,
}
use ttl.State.Session.{ProbeEvent}
use ttl.Tui.Replay.{total_duration}
use ttl.Tui.Replay.Sorted.{IsSorted, AllFrom, keep-yes, keep-no}

-- No event is later than the end.
pub AllUpTo : ℕ → List ProbeEvent → Type 0
AllUpTo ms [] = Unit
AllUpTo ms (e ∷ es) = (e.offset_ms ≤ ms) × AllUpTo ms es

ends :
    (ms : ℕ) (es : List ProbeEvent)
    → AllFrom ms es
    → IsSorted es
    → ms ≤ total_duration es ⊎ (es ≡ [])
unfolding total_duration
ends ms [] w s = inr refl
ends ms (e ∷ []) w s = inl w.0
ends ms (e ∷ f ∷ es) w s = elim (ends ms (f ∷ es) w.1 s.1) [ inl h ↦ inl h | inr gone ↦ absurd cc ]

pub total-AllUpTo : (es : List ProbeEvent) → IsSorted es → AllUpTo (total_duration es) es
unfolding total_duration AllUpTo
total-AllUpTo [] s = tt
total-AllUpTo (e ∷ []) s = (omega arith, tt)
total-AllUpTo (e ∷ f ∷ es) s = elim (ends e.offset_ms (f ∷ es) s.0 s.1) [
  | inl h ↦ (h, total-AllUpTo (f ∷ es) s.1)
  | inr gone ↦ absurd cc
]

pub keep-min :
    (ms total : ℕ) (es : List ProbeEvent)
    → AllUpTo total es
    → keep (λ e. leb e.offset_ms (min ms total)) es ≡ keep (λ e. leb e.offset_ms ms) es
unfolding AllUpTo
keep-min ms total [] w = refl
keep-min ms total (e ∷ es) w =
    let same : leb e.offset_ms (min ms total) ≡ leb e.offset_ms ms = ground (arith, w.0) in
    let test = λ (f : ProbeEvent). leb f.offset_ms ms in
    let test' = λ (f : ProbeEvent). leb f.offset_ms (min ms total) in
    elim (Bool-cases (test e)) [
      | inl early ↦
          keep-yes test' e es (same ∙ early)
          ∙ ap (◌∷◌ e) (keep-min ms total es w.1)
          ∙ sym (keep-yes test e es early)
      | inr late ↦
          keep-no test' e es (same ∙ late) ∙ keep-min ms total es w.1 ∙ sym (keep-no test e es late)
    ]
