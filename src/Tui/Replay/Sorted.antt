-- ===== src/Tui/Replay/Sorted.antt =====
-- tui/app.rs, `ReplayState::new`: the events in the order of their offsets.
use ttl.Base.{
  ℕ, suc, ◌≤◌, ◌<◌, ◌≡◌, ◌∙◌, refl, sym, ap, Bool, true, false, List, [], ◌∷◌, length, take, keep,
  leb, ◌==◌, arith, Bool-cases, inl, inr,
}
use ttl.State.Session.{ProbeEvent}
use ttl.Tui.Replay.{insert_event, sort_by_offset, up_to}

-- Every event of the list is at the time or later.
abbrev pub AllFrom : ℕ → List ProbeEvent → Type 0
AllFrom ms [] = Unit
AllFrom ms (e ∷ es) = (ms ≤ e.offset_ms) × AllFrom ms es

abbrev pub IsSorted : List ProbeEvent → Type 0
IsSorted [] = Unit
IsSorted (e ∷ es) = AllFrom e.offset_ms es × IsSorted es

-- The events of one offset, in their order.
abbrev pub at_offset : ℕ → List ProbeEvent → List ProbeEvent
at_offset ms es = keep (λ e. e.offset_ms == ms) es

AllFrom-earlier : (a b : ℕ) (es : List ProbeEvent) → a ≤ b → AllFrom b es → AllFrom a es
AllFrom-earlier a b [] h w = tt
AllFrom-earlier a b (e ∷ es) h w = (omega (arith, w.0), AllFrom-earlier a b es h w.1)

insert_event-AllFrom :
    (ms : ℕ) (e : ProbeEvent) (es : List ProbeEvent)
    → ms ≤ e.offset_ms
    → AllFrom ms es
    → AllFrom ms (insert_event e es)
insert_event-AllFrom ms e [] h w = (h, tt)
insert_event-AllFrom ms e (f ∷ fs) h w = elim (Bool-cases (leb e.offset_ms f.offset_ms)) [
  | inl before ↦ rw (insert_event, before) (h, w)
  | inr after ↦ rw (insert_event, after) (w.0, insert_event-AllFrom ms e fs h w.1)
]

insert_event-IsSorted :
    (e : ProbeEvent) (es : List ProbeEvent) → IsSorted es → IsSorted (insert_event e es)
insert_event-IsSorted e [] w = (tt, tt)
insert_event-IsSorted e (f ∷ fs) w = elim (Bool-cases (leb e.offset_ms f.offset_ms)) [
  | inl before ↦
      let h : e.offset_ms ≤ f.offset_ms = ground (arith, before) in
      rw (insert_event, before) ((h, AllFrom-earlier e.offset_ms f.offset_ms fs h w.0), w)
  | inr after ↦
      let h : f.offset_ms ≤ e.offset_ms = ground (arith, after) in
      rw (insert_event, after)
        (insert_event-AllFrom f.offset_ms e fs h w.0, insert_event-IsSorted e fs w.1)
]

pub sort_by_offset-IsSorted : (es : List ProbeEvent) → IsSorted (sort_by_offset es)
unfolding sort_by_offset
sort_by_offset-IsSorted [] = tt
sort_by_offset-IsSorted (e ∷ es) =
    insert_event-IsSorted e (sort_by_offset es) (sort_by_offset-IsSorted es)

length-insert_event :
    (e : ProbeEvent) (es : List ProbeEvent) → length (insert_event e es) ≡ suc (length es)
length-insert_event e [] = refl
length-insert_event e (f ∷ fs) = elim (Bool-cases (leb e.offset_ms f.offset_ms)) [
  | inl before ↦ rw (insert_event, before) refl
  | inr after ↦ rw (insert_event, after) (ap suc (length-insert_event e fs))
]

pub length-sort_by_offset : (es : List ProbeEvent) → length (sort_by_offset es) ≡ length es
unfolding sort_by_offset
length-sort_by_offset [] = refl
length-sort_by_offset (e ∷ es) =
    length-insert_event e (sort_by_offset es) ∙ ap suc (length-sort_by_offset es)

pub keep-yes :
    (p : ProbeEvent → Bool) (e : ProbeEvent) (es : List ProbeEvent)
    → p e ≡ true
    → keep p (e ∷ es) ≡ e ∷ keep p es
keep-yes p e es h = rw (h, keep) refl

pub keep-no :
    (p : ProbeEvent → Bool) (e : ProbeEvent) (es : List ProbeEvent)
    → p e ≡ false
    → keep p (e ∷ es) ≡ keep p es
keep-no p e es h = rw (h, keep) refl

keep-cons :
    (p : ProbeEvent → Bool) (e : ProbeEvent) (es fs : List ProbeEvent)
    → keep p es ≡ keep p fs
    → keep p (e ∷ es) ≡ keep p (e ∷ fs)
keep-cons p e es fs h = elim (Bool-cases (p e)) [
  | inl passes ↦ keep-yes p e es passes ∙ ap (◌∷◌ e) h ∙ sym (keep-yes p e fs passes)
  | inr fails ↦ keep-no p e es fails ∙ h ∙ sym (keep-no p e fs fails)
]

at_offset-insert_event :
    (ms : ℕ) (e : ProbeEvent) (es : List ProbeEvent)
    → at_offset ms (insert_event e es) ≡ at_offset ms (e ∷ es)
at_offset-insert_event ms e [] = refl
at_offset-insert_event ms e (f ∷ fs) = elim (Bool-cases (leb e.offset_ms f.offset_ms)) [
  | inl before ↦ rw (insert_event, before) refl
  | inr after ↦
      let test = λ (g : ProbeEvent). g.offset_ms == ms in
      let rest = at_offset-insert_event ms e fs in
      let late : f.offset_ms < e.offset_ms = ground (arith, after) in
      rw (insert_event, after)
        (elim (Bool-cases (test e)) [
          | inl here ↦
              let other : test f ≡ false = ground (arith, here) in
              keep-no test f (insert_event e fs) other
              ∙ rest
              ∙ keep-cons test e fs (f ∷ fs) (sym (keep-no test f fs other))
          | inr other ↦
              keep-cons test f (insert_event e fs) fs (rest ∙ keep-no test e fs other)
              ∙ sym (keep-no test e (f ∷ fs) other)
        ])
]

-- Sorting keeps, for each offset, the events that have it, in the order that they had.
pub at_offset-sort_by_offset :
    (ms : ℕ) (es : List ProbeEvent) → at_offset ms (sort_by_offset es) ≡ at_offset ms es
unfolding sort_by_offset
at_offset-sort_by_offset ms [] = refl
at_offset-sort_by_offset ms (e ∷ es) =
    at_offset-insert_event ms e (sort_by_offset es)
    ∙ keep-cons (λ f. f.offset_ms == ms) e (sort_by_offset es) es (at_offset-sort_by_offset ms es)

none_before :
    (ms : ℕ) (es : List ProbeEvent) (n : ℕ)
    → AllFrom n es
    → ms < n
    → keep (λ e. leb e.offset_ms ms) es ≡ []
none_before ms [] n w h = refl
none_before ms (e ∷ es) n w h =
    keep-no (λ e. leb e.offset_ms ms) e es (ground (arith, w.0)) ∙ none_before ms es n w.1 h

-- Of sorted events, those up to a time are the first ones.
pub take-up_to :
    (ms : ℕ) (es : List ProbeEvent)
    → IsSorted es
    → take (up_to ms es) es ≡ keep (λ e. leb e.offset_ms ms) es
unfolding up_to
take-up_to ms [] w = refl
take-up_to ms (e ∷ es) w = elim (Bool-cases (leb e.offset_ms ms)) [
  | inl early ↦
      rw (keep-yes (λ e. leb e.offset_ms ms) e es early, early) (ap (◌∷◌ e) (take-up_to ms es w.1))
  | inr late ↦
      let none_early = none_before ms es e.offset_ms w.0 (ground (arith, late)) in
      rw (keep-no (λ e. leb e.offset_ms ms) e es late, late) (sym none_early)
]

pub up_to-bound : (ms : ℕ) (es : List ProbeEvent) → up_to ms es ≤ length es
unfolding up_to
up_to-bound ms [] = omega arith
up_to-bound ms (e ∷ es) = ground (arith, up_to-bound ms es)

insert_first :
    (e : ProbeEvent) (es : List ProbeEvent) → AllFrom e.offset_ms es → insert_event e es ≡ e ∷ es
insert_first e [] w = refl
insert_first e (f ∷ fs) w =
    let before : leb e.offset_ms f.offset_ms ≡ true = ground (arith, w.0) in
    rw (insert_event, before) refl

pub sort_by_offset_sorted : (es : List ProbeEvent) → IsSorted es → sort_by_offset es ≡ es
unfolding sort_by_offset
sort_by_offset_sorted [] w = refl
sort_by_offset_sorted (e ∷ es) w =
    ap (insert_event e) (sort_by_offset_sorted es w.1) ∙ insert_first e es w.0
