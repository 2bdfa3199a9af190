-- ===== src/Tui/Replay/Shown.antt =====
-- tui/app.rs, the replay: the session that is shown is a part of the recording up to the current event.

use ttl.Base.{
  ℕ, zero, suc, ◌+◌, ◌-◌, ◌*◌, ◌%◌, ◌≤◌, ◌≡◌, ◌∙◌, refl, sym, ap, Bool, true, false, Option, none,
  some, List, [], ◌∷◌, ◌++◌, length, take, drop, leb, ◌==◌, arith, Bool-cases, inl, inr,
  if◌then◌else◌,
}
use ttl.Base.Net.{IpAddr, ip_eq}
use ttl.Base.Float.{Float}
use ttl.Setup.Config.{Config}
use ttl.State.Hop.{Hop, record_sent, record_timeout, record_flow_timeout}
use ttl.State.Session
use ttl.State.Session.{
  Session, ProbeEvent, ProbeOutcome, reply, late_reply, Target, Clock, under_write_guard,
  apply_replay_event, replay_outcome, with_hop, has_hop, reach, count_sent, replay_answer,
}
use ttl.State.Session.Frame.{with_hop-frame}
use ttl.Trace.Receiver.Live.{replays}
use ttl.Tui.Replay.{slice, apply_events, rebuilt}

take-drop {ℓ} :
    {A : Type ℓ} (i n : ℕ) (xs : List A) → take i xs ++ take n (drop i xs) ≡ take (i + n) xs
take-drop zero n xs = let e : 0 + n ≡ n = omega arith in ap (λ k. take k xs) (sym e)
take-drop (suc i) zero [] = let e : suc i + 0 ≡ suc i = omega arith in ap (λ k. take k []) (sym e)
take-drop (suc i) (suc n) [] =
    let e : suc i + suc n ≡ suc (i + suc n) = omega arith in ap (λ k. take k []) (sym e)
take-drop (suc i) n (x ∷ xs) =
    let e : suc i + n ≡ suc (i + n) = omega arith in
    ap (◌∷◌ x) (take-drop i n xs) ∙ ap (λ k. take k (x ∷ xs)) (sym e)

drop-drop {ℓ} : {A : Type ℓ} (i j : ℕ) (xs : List A) → drop j (drop i xs) ≡ drop (i + j) xs
drop-drop zero j xs = let e : 0 + j ≡ j = omega arith in ap (λ k. drop k xs) (sym e)
drop-drop (suc i) zero [] = let e : suc i + 0 ≡ suc i = omega arith in ap (λ k. drop k []) (sym e)
drop-drop (suc i) (suc j) [] =
    let e : suc i + suc j ≡ suc (i + suc j) = omega arith in ap (λ k. drop k []) (sym e)
drop-drop (suc i) j (x ∷ xs) =
    let e : suc i + j ≡ suc (i + j) = omega arith in
    drop-drop i j xs ∙ ap (λ k. drop k (x ∷ xs)) (sym e)

-- Two parts in a row are one.
segments {ℓ} :
    {A : Type ℓ} (k i j : ℕ) (xs : List A)
    → k ≤ i
    → i ≤ j
    → take (i - k) (drop k xs) ++ take (j - i) (drop i xs) ≡ take (j - k) (drop k xs)
segments k i j xs a b =
    let e : k + (i - k) ≡ i = omega arith in
    let f : (i - k) + (j - i) ≡ j - k = omega arith in
    ap (λ n. take (i - k) (drop k xs) ++ take (j - i) (drop n xs)) (sym e)
    ∙ ap (λ ys. take (i - k) (drop k xs) ++ take (j - i) ys) (sym (drop-drop k (i - k) xs))
    ∙ take-drop (i - k) (j - i) (drop k xs)
    ∙ ap (λ n. take n (drop k xs)) f

-- A slice within bounds is there.
pub slice-within {ℓ} :
    {A : Type ℓ} (i j : ℕ) (xs : List A)
    → i ≤ j
    → j ≤ length xs
    → slice i j xs ≡ some (take (j - i) (drop i xs))
slice-within i j xs h k =
    let a : leb i j ≡ true = ground arith in
    let b : leb j (length xs) ≡ true = ground (arith, k) in rw (a, b) refl

module _ (f64 : Float) where
  -- The session with another count of write guards.
  abbrev pub marked : ℕ → Session f64 → Session f64
  marked g s = record s { render_generation = g }

  replays-append :
      (xs ys : List ProbeEvent) (s : Session f64)
      → replays f64 (xs ++ ys) s ≡ replays f64 ys (replays f64 xs s)
  unfolding replays
  replays-append [] ys s = refl
  replays-append (e ∷ xs) ys s = replays-append xs ys (apply_replay_event f64 e s)

  with_hop-marked :
      (g ttl : ℕ) (f : Hop f64 → Hop f64) (s : Session f64)
      → with_hop f64 ttl f (marked g s) ≡ marked g (with_hop f64 ttl f s)
  unfolding with_hop
  with_hop-marked g ttl f s = elim (Bool-cases (has_hop f64 ttl s)) [
    | inl there ↦ rw there refl
    | inr absent ↦ rw absent refl
  ]

  reach-marked :
      (b : Bool) (g ttl : ℕ) (s : Session f64)
      → (if b then reach f64 ttl (marked g s) else marked g s)
        ≡ marked g (if b then reach f64 ttl s else s)
  unfolding reach
  reach-marked true g ttl s = refl
  reach-marked false g ttl s = refl

  replay_outcome-marked :
      (g : ℕ) (single : Bool) (event : ProbeEvent) (o : ProbeOutcome) (s : Session f64)
      → replay_outcome f64 single event o (marked g s)
        ≡ marked g (replay_outcome f64 single event o s)
  unfolding replay_outcome
  replay_outcome-marked g single event (reply addr rtt_us) s =
      let f = λ (h : Hop f64).
        replay_answer f64 single event.flow_id addr (rtt_us * 1000) (record_sent f64 h) in
      ap (λ t. count_sent f64 (if ip_eq addr s.target.resolved then reach f64 event.ttl t else t))
        (with_hop-marked g event.ttl f s)
      ∙ ap (count_sent f64)
          (reach-marked (ip_eq addr s.target.resolved) g event.ttl (with_hop f64 event.ttl f s))
  replay_outcome-marked g single event Session.timed_out s = ap (count_sent f64) (
      with_hop-marked g event.ttl
        (λ h. record_flow_timeout f64 event.flow_id (record_timeout f64 (record_sent f64 h))) s)
  replay_outcome-marked g single event (late_reply addr rtt_us) s =
      with_hop-marked g event.ttl (replay_answer f64 single event.flow_id addr (rtt_us * 1000)) s

  apply-marked :
      (g : ℕ) (event : ProbeEvent) (s : Session f64)
      → apply_replay_event f64 event (marked g s) ≡ marked g (apply_replay_event f64 event s)
  unfolding apply_replay_event
  apply-marked g event s = elim (Bool-cases (has_hop f64 event.ttl s)) [
    | inl there ↦ rw there (replay_outcome-marked g (s.config.flows == 1) event event.outcome s)
    | inr absent ↦ rw absent refl
  ]

  replays-marked :
      (g : ℕ) (es : List ProbeEvent) (s : Session f64)
      → replays f64 es (marked g s) ≡ marked g (replays f64 es s)
  unfolding replays
  replays-marked g [] s = refl
  replays-marked g (e ∷ es) s =
      ap (replays f64 es) (apply-marked g e s) ∙ replays-marked g es (apply_replay_event f64 e s)

  -- What a replay leaves as it is.
  abbrev pub frame : Session f64 → Target × Config × Bool × Option IpAddr × Option IpAddr
  frame s = (s.target, s.config, s.paused, s.source_ip, s.gateway)

  frame-with_hop :
      (ttl : ℕ) (f : Hop f64 → Hop f64) (s : Session f64) → frame (with_hop f64 ttl f s) ≡ frame s
  frame-with_hop ttl f s = ap frame (with_hop-frame f64 ttl f s)

  frame-replay_outcome :
      (single : Bool) (event : ProbeEvent) (o : ProbeOutcome) (s : Session f64)
      → frame (replay_outcome f64 single event o s) ≡ frame s
  unfolding replay_outcome reach
  frame-replay_outcome single event (reply addr rtt_us) s =
      reached (ip_eq addr s.target.resolved) (with_hop f64 event.ttl _ s)
      ∙ frame-with_hop event.ttl _ s
    where
      reached :
          (b : Bool) (t : Session f64) → frame (if b then reach f64 event.ttl t else t) ≡ frame t
      reached true t = refl
      reached false t = refl
  frame-replay_outcome single event Session.timed_out s = frame-with_hop event.ttl _ s
  frame-replay_outcome single event (late_reply addr rtt_us) s = frame-with_hop event.ttl _ s

  frame-replay :
      (event : ProbeEvent) (s : Session f64) → frame (apply_replay_event f64 event s) ≡ frame s
  unfolding apply_replay_event
  frame-replay event s =
      let same = frame-replay_outcome (s.config.flows == 1) event event.outcome s in
      elim (Bool-cases (has_hop f64 event.ttl s)) [
        | inl there ↦ rw there same
        | inr absent ↦ rw absent refl
      ]

  pub frame-replays : (es : List ProbeEvent) (s : Session f64) → frame (replays f64 es s) ≡ frame s
  unfolding replays
  frame-replays [] s = refl
  frame-replays (e ∷ es) s = frame-replays es (apply_replay_event f64 e s) ∙ frame-replay e s

  -- The session shows events in a row up to the one before `i`, from one that `P` allows on: it is
  -- their replay on a new session, but for the count of write guards.
  pub record IsUpTo (target : Target) (config : Config) (P : ℕ → Type 0) (events : List ProbeEvent)
      (i : ℕ) (s : Session f64) : Type 0 where
    pub clock : Clock
    pub from : ℕ
    pub allowed : P from
    pub before : from ≤ i
    pub shown :
        s
        ≡ marked s.render_generation (
            replays f64
              (take (i - from) (drop from events))
              (Session.new f64 target config clock.now clock.instant))

  module _ (target : Target) (config : Config) (P : ℕ → Type 0) (events : List ProbeEvent) where
    pub guarded :
        (i : ℕ) (s t : Session f64)
        → IsUpTo target config P events i t
        → IsUpTo target config P events i (under_write_guard f64 (λ _. t) s)
    unfolding under_write_guard
    guarded i s t w = record {
      clock = w.clock;
      from = w.from;
      allowed = w.allowed;
      before = w.before;
      shown = ap (marked ((t.render_generation + 1) % 18446744073709551616)) w.shown;
    }

    pub apply_events-IsUpTo :
        (i j : ℕ) (s : Session f64)
        → i ≤ j
        → j ≤ length events
        → IsUpTo target config P events i s
        → (t : Session f64) × (apply_events f64 i j events s ≡ some t)
          × IsUpTo target config P events j t
    apply_events-IsUpTo i j s h k w =
        let es = take (j - i) (drop i events) in
        let first = take (i - w.from) (drop w.from events) in
        let whole = take (j - w.from) (drop w.from events) in
        let s0 = Session.new f64 target config w.clock.now w.clock.instant in
        let t : Session f64 = replays f64 es s in
        let moved : t ≡ marked s.render_generation (replays f64 whole s0) =
          ap (replays f64 es) w.shown
          ∙ replays-marked s.render_generation es (replays f64 first s0)
          ∙ ap (marked s.render_generation) (
              sym (replays-append first es s0)
              ∙ ap (λ xs. replays f64 xs s0) (segments w.from i j events w.before h)) in
        (
          t,
          rw (slice-within i j events h k) refl,
          record {
            clock = w.clock;
            from = w.from;
            allowed = w.allowed;
            before = let b = w.before in omega arith;
            shown =
                moved
                ∙ ap (λ g. marked g (replays f64 whole s0))
                    (ap (λ (u : Session f64). u.render_generation) (sym moved));
          },
        )

    pub frame-IsUpTo :
        (i : ℕ) (s : Session f64)
        → IsUpTo target config P events i s
        → frame s ≡ (target, config, false, none, none)
    unfolding Session.new
    frame-IsUpTo i s w =
        ap frame w.shown
        ∙ frame-replays (take (i - w.from) (drop w.from events))
            (Session.new f64 target config w.clock.now w.clock.instant)

    pub begun-IsUpTo :
        P 0
        → (clock : Clock)
        → IsUpTo target config P events 0 (Session.new f64 target config clock.now clock.instant)
    unfolding replays
    begun-IsUpTo start clock = record {
      clock = clock;
      from = 0;
      allowed = start;
      before = omega arith;
      shown = refl;
    }

    pub rebuilt-IsUpTo :
        P 0
        → (clock : Clock) (i j : ℕ) (s : Session f64) → j ≤ length events
        → IsUpTo target config P events i s
        → (t : Session f64) × (rebuilt f64 clock j events s ≡ some t)
          × IsUpTo target config P events j t
    rebuilt-IsUpTo start clock i j s k w =
        let kept = frame-IsUpTo i s w in
        let same_target : s.target ≡ target = ap (λ x. x.0) kept in
        let same_config : s.config ≡ config = ap (λ x. x.1) kept in
        let (t, done, u) =
          apply_events-IsUpTo 0 j (Session.new f64 target config clock.now clock.instant)
            (omega arith) k (begun-IsUpTo start clock) in
        (t, rw (same_target, same_config) done, u)
