-- ===== src/State/Session/Replay.antt =====
-- state/session.rs, `Session::apply_replay_event`: what a replayed event does to the views of the
-- hops, and which time to live the destination gets.
use ttl.Base.{
  ℕ, zero, suc, ◌-◌, ◌*◌, ◌≡◌, refl, sym, ap, ◌∙◌, Bool, true, false, ◌||◌, none, List, [], ◌∷◌,
  map, length, modify, ltb, ◌==◌, Bool-cases, inl, inr, if◌then◌else◌,
}
use ttl.Base.Net.{IpAddr, ip_eq}
use ttl.Base.Float.{Float}
use ttl.Base.Windows.{push_capped}
use ttl.State.Hop.{
  Hop, record_sent, record_timeout, record_flow_timeout, record_flow_response,
  record_response_with_mpls, record_response_detecting_flaps,
}
use ttl.State.Hop.View
use ttl.State.Hop.View.{View, view, answered, response-view}
use ttl.State.Session.{
  Session, ProbeEvent, ProbeOutcome, reply, timed_out, late_reply, has_hop, with_hop, reach,
  replay_answer, replay_outcome, apply_replay_event,
}

-- `f` on the view of the hop of a time to live, if there is one.
pub with_view : ℕ → (View → View) → List View → List View
with_view ttl f vs =
    if (if ttl == 0 || ltb (length vs) ttl then false else true) then modify (ttl - 1) f vs else vs

-- What an event says of the hops: an answer, late or not, or a timeout.
unfoldable pub happen : ℕ → ProbeOutcome → List View → List View
unfolding with_view
happen ttl (reply addr rtt_us) vs = with_view ttl (answered addr) vs
happen ttl timed_out vs = with_view ttl View.timed_out vs
happen ttl (late_reply addr rtt_us) vs = with_view ttl (answered addr) vs

module _ (f64 : Float) where
  abbrev pub views : Session f64 → List View
  views s = map (view f64) s.hops

  length-map-view : (hs : List (Hop f64)) → length (map (view f64) hs) ≡ length hs
  length-map-view [] = refl
  length-map-view (h ∷ hs) = ap suc (length-map-view hs)

  map-modify :
      (i : ℕ) (f : Hop f64 → Hop f64) (g : View → View) (hs : List (Hop f64))
      → ((h : Hop f64) → view f64 (f h) ≡ g (view f64 h))
      → map (view f64) (modify i f hs) ≡ modify i g (map (view f64) hs)
  map-modify i f g [] same = refl
  map-modify zero f g (h ∷ hs) same = rw (same h) refl
  map-modify (suc i) f g (h ∷ hs) same = ap (◌∷◌ (view f64 h)) (map-modify i f g hs same)

  pub views-with_hop :
      (ttl : ℕ) (f : Hop f64 → Hop f64) (g : View → View) (s : Session f64)
      → ((h : Hop f64) → view f64 (f h) ≡ g (view f64 h))
      → views (with_hop f64 ttl f s) ≡ with_view ttl g (views s)
  unfolding with_hop with_view
  views-with_hop ttl f g s same =
      let e = length-map-view s.hops in
      elim (Bool-cases (has_hop f64 ttl s)) [
        | inl there ↦ rw (e, there) (map-modify (ttl - 1) f g s.hops same)
        | inr absent ↦ rw (e, absent) refl
      ]

  pub replay_answer-view :
      (single : Bool) (flow_id : ℕ) (addr : IpAddr) (rtt : ℕ) (h : Hop f64)
      → view f64 (replay_answer f64 single flow_id addr rtt h) ≡ answered addr (view f64 h)
  unfolding replay_answer record_flow_response record_response_with_mpls
      record_response_detecting_flaps view
  replay_answer-view true flow_id addr rtt h = response-view f64 true addr rtt none none h
  replay_answer-view false flow_id addr rtt h = response-view f64 false addr rtt none none h

  views-absent :
      (ttl : ℕ) (o : ProbeOutcome) (s : Session f64)
      → has_hop f64 ttl s ≡ false
      → happen ttl o (views s) ≡ views s
  unfolding happen
  views-absent ttl (reply addr rtt_us) s a = unfold with_view in rw (length-map-view s.hops, a) refl
  views-absent ttl timed_out s a = unfold with_view in rw (length-map-view s.hops, a) refl
  views-absent ttl (late_reply addr rtt_us) s a =
      unfold with_view in rw (length-map-view s.hops, a) refl

  replay_outcome-views :
      (single : Bool) (event : ProbeEvent) (o : ProbeOutcome) (s : Session f64)
      → views (replay_outcome f64 single event o s) ≡ happen event.ttl o (views s)
  unfolding replay_outcome happen reach record_sent view record_flow_timeout push_capped
  replay_outcome-views single event (reply addr rtt_us) s =
      let answered_hop = λ (h : Hop f64).
        replay_answer f64 single event.flow_id addr (rtt_us * 1000) (record_sent f64 h) in
      let shown =
        views-with_hop event.ttl answered_hop (answered addr) s
          (λ h. replay_answer-view single event.flow_id addr (rtt_us * 1000) (record_sent f64 h)) in
      reached (ip_eq addr s.target.resolved) (with_hop f64 event.ttl answered_hop s) ∙ shown
    where
      reached :
          (b : Bool) (t : Session f64)
          → map (view f64) (if b then reach f64 event.ttl t else t).hops ≡ map (view f64) t.hops
      reached true t = refl
      reached false t = refl
  replay_outcome-views single event timed_out s =
      views-with_hop event.ttl _ View.timed_out s
        (λ h. unfold view View.timed_out record_timeout in refl)
  replay_outcome-views single event (late_reply addr rtt_us) s =
      views-with_hop event.ttl _ (answered addr) s
        (replay_answer-view single event.flow_id addr (rtt_us * 1000))

  -- A replayed event does to the views of the hops what it says, and changes no other hop's.
  pub apply_replay_event-views :
      (event : ProbeEvent) (s : Session f64)
      → views (apply_replay_event f64 event s) ≡ happen event.ttl event.outcome (views s)
  unfolding apply_replay_event
  apply_replay_event-views event s =
      let single = s.config.flows == 1 in
      elim (Bool-cases (has_hop f64 event.ttl s)) [
        | inl there ↦ rw there (replay_outcome-views single event event.outcome s)
        | inr absent ↦ rw absent (sym (views-absent event.ttl event.outcome s absent))
      ]
