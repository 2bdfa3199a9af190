-- ===== src/State/Session/Invariant.antt =====
-- state/session.rs, `Session`: what holds of a session at any time.
use ttl.Base.{
  ℕ, zero, suc, ◌+◌, ◌-◌, ◌*◌, ◌≤◌, ◌<◌, ◌≡◌, refl, Bool, true, false, Option, none, some, List, [],
  ◌∷◌, length, length-modify, modify, is_some, arith, ◌==◌, ◌∙◌, Bool-cases, inl, inr,
}
use ttl.Base.Net.{IpAddr, ip_eq}
use ttl.Base.Float.{Float}
use ttl.Setup.Config.{Config}
use ttl.State.Hop
use ttl.State.Hop.{
  Hop, record_sent, record_timeout, record_flow_timeout, record_flow_response,
  record_response_with_extensions, record_response_with_mpls, record_response_detecting_flaps,
  record_response_detecting_flaps_with_extensions,
}
use ttl.State.Session
use ttl.State.Session.Frame.{length-with_hop}
use ttl.State.Session.{
  Session, ProbeEvent, reply, timed_out, late_reply, hops_from, with_hop, nearer, reach,
  replay_answer, replay_outcome, apply_replay_event, reset_stats, Target, has_hop,
}

-- A time to live of a session with `n` hops.
abbrev pub IsTtl : ℕ → Option ℕ → Type 0
IsTtl n none = Unit
IsTtl n (some ttl) = (0 < ttl) × (ttl ≤ n)

module _ (f64 : Float) where
  -- The hops are those of the times to live from `ttl` on, in order.
  abbrev pub AllFrom : ℕ → List (Hop f64) → Type 0
  AllFrom ttl [] = Unit
  AllFrom ttl (h ∷ hs) = (h.ttl ≡ ttl) × AllFrom (ttl + 1) hs

  -- There is a hop for each time to live up to the limit; the search for the path MTU is there
  -- exactly if the run asks for it; and the session is complete exactly if it knows the time to
  -- live of its destination, which is one of its hops'.
  pub record IsWellFormed (s : Session f64) : Type 0 where
    pub indexed : AllFrom 1 s.hops
    pub full : length s.hops ≡ s.config.max_ttl
    pub searching : is_some s.pmtud ≡ s.config.pmtud
    pub reached : is_some s.dest_ttl ≡ s.complete
    pub near : IsTtl (length s.hops) s.dest_ttl

  AllFrom-hops_from : (n ttl : ℕ) → AllFrom ttl (hops_from f64 ttl n)
  unfolding hops_from Hop.new
  AllFrom-hops_from zero ttl = tt
  AllFrom-hops_from (suc n) ttl = (refl, AllFrom-hops_from n (ttl + 1))

  length-hops_from : (n ttl : ℕ) → length (hops_from f64 ttl n) ≡ n
  unfolding hops_from
  length-hops_from zero ttl = refl
  length-hops_from (suc n) ttl = omega (arith, length-hops_from n (ttl + 1))

  pub new-IsWellFormed :
      (target : Target) (config : Config) (now instant : ℕ)
      → IsWellFormed (Session.new f64 target config now instant)
  unfolding Session.new
  new-IsWellFormed target config now instant = record {
    indexed = AllFrom-hops_from config.max_ttl 1;
    full = length-hops_from config.max_ttl 1;
    searching = ground arith;
    reached = refl;
    near = tt;
  }

  AllFrom-modify :
      (f : Hop f64 → Hop f64) (i ttl : ℕ) (hs : List (Hop f64))
      → ((h : Hop f64) → (f h).ttl ≡ h.ttl)
      → AllFrom ttl hs
      → AllFrom ttl (modify i f hs)
  AllFrom-modify f i ttl [] same a = tt
  AllFrom-modify f zero ttl (h ∷ hs) same a = (same h ∙ a.0, a.1)
  AllFrom-modify f (suc i) ttl (h ∷ hs) same a = (a.0, AllFrom-modify f i (ttl + 1) hs same a.1)

  -- A change of one hop that keeps its time to live.
  pub with_hop-IsWellFormed :
      (ttl : ℕ) (f : Hop f64 → Hop f64) (s : Session f64)
      → ((h : Hop f64) → (f h).ttl ≡ h.ttl)
      → IsWellFormed s
      → IsWellFormed (with_hop f64 ttl f s)
  unfolding with_hop
  with_hop-IsWellFormed ttl f s same w = elim (Bool-cases (has_hop f64 ttl s)) [
    | inl there ↦ rw there (record {
      indexed = AllFrom-modify f (ttl - 1) 1 s.hops same w.indexed;
      full = length-modify (ttl - 1) f s.hops ∙ w.full;
      searching = w.searching;
      reached = w.reached;
      near = rw (length-modify (ttl - 1) f s.hops) w.near;
    })
    | inr absent ↦ rw absent w
  ]

  pub reach-IsWellFormed :
      (ttl : ℕ) (s : Session f64)
      → IsTtl (length s.hops) (some ttl)
      → IsWellFormed s
      → IsWellFormed (reach f64 ttl s)
  unfolding reach
  reach-IsWellFormed ttl s t w = record {
    indexed = w.indexed;
    full = w.full;
    searching = w.searching;
    reached = is_some-nearer ttl s.dest_ttl;
    near = IsTtl-nearer (length s.hops) ttl s.dest_ttl t w.near;
  }
    where
      is_some-nearer : (ttl : ℕ) (d : Option ℕ) → is_some (nearer ttl d) ≡ true
      is_some-nearer ttl none = refl
      is_some-nearer ttl (some d) = ground arith

      IsTtl-nearer :
          (n ttl : ℕ) (d : Option ℕ) → IsTtl n (some ttl) → IsTtl n d → IsTtl n (nearer ttl d)
      IsTtl-nearer n ttl none t w = t
      IsTtl-nearer n ttl (some d) t w = ground arith

  pub count_sent-IsWellFormed :
      (s : Session f64) → IsWellFormed s → IsWellFormed (Session.count_sent f64 s)
  count_sent-IsWellFormed s w = record {
    indexed = w.indexed;
    full = w.full;
    searching = w.searching;
    reached = w.reached;
    near = w.near;
  }

  pub answer-ttl :
      (single : Bool) (flow_id : ℕ) (addr : IpAddr) (rtt : ℕ) (h : Hop f64)
      → (replay_answer f64 single flow_id addr rtt h).ttl ≡ h.ttl
  unfolding replay_answer record_flow_response record_response_with_mpls
      record_response_detecting_flaps record_response_with_extensions
      record_response_detecting_flaps_with_extensions
  answer-ttl true flow_id addr rtt h = refl
  answer-ttl false flow_id addr rtt h = refl

  -- A replayed event keeps a session well formed, whatever the event says.
  pub apply_replay_event-IsWellFormed :
      (event : ProbeEvent) (s : Session f64)
      → IsWellFormed s
      → IsWellFormed (apply_replay_event f64 event s)
  unfolding apply_replay_event record_sent record_timeout record_flow_timeout
  apply_replay_event-IsWellFormed event s w = elim (Bool-cases (has_hop f64 event.ttl s)) [
    | inl there ↦ rw there (outcome_lem event.outcome there)
    | inr absent ↦ rw absent w
  ]
    where
      single : Bool
      single = s.config.flows == 1

      answered : IpAddr → ℕ → Session f64
      answered addr rtt_us =
          with_hop f64 event.ttl
            (λ h. replay_answer f64 single event.flow_id addr (rtt_us * 1000) (record_sent f64 h)) s

      answered-IsWellFormed : (addr : IpAddr) (rtt_us : ℕ) → IsWellFormed (answered addr rtt_us)
      answered-IsWellFormed addr rtt_us =
          with_hop-IsWellFormed event.ttl _ s
            (λ h. answer-ttl single event.flow_id addr (rtt_us * 1000) (record_sent f64 h)) w

      outcome_lem :
          (o : Session.ProbeOutcome)
          → has_hop f64 event.ttl s ≡ true
          → IsWellFormed (replay_outcome f64 single event o s)
      outcome_lem (reply addr rtt_us) there = elim (Bool-cases (ip_eq addr s.target.resolved)) [
        | inl same ↦ rw same (
            count_sent-IsWellFormed _ (
              reach-IsWellFormed event.ttl (answered addr rtt_us)
                (rw (length-with_hop f64 event.ttl _ s) (ground arith))
                (answered-IsWellFormed addr rtt_us)))
        | inr other ↦ rw other (count_sent-IsWellFormed _ (answered-IsWellFormed addr rtt_us))
      ]
      outcome_lem timed_out there =
          count_sent-IsWellFormed _ (with_hop-IsWellFormed event.ttl _ s (λ h. refl) w)
      outcome_lem (late_reply addr rtt_us) there =
          with_hop-IsWellFormed event.ttl _ s
            (λ h. answer-ttl single event.flow_id addr (rtt_us * 1000) h) w
