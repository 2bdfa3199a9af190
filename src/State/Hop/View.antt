-- ===== src/State/Hop/View.antt =====
-- state/session.rs, `Hop`: what a hop counts, whatever times and labels it stores. The statistics of
-- a responder are forgotten but for the number of its answers. The primary responder and what follows
-- from it are left out too: among responders with equally many answers it depends on the order in
-- which the map of responders is read, which no two maps need to share.
use ttl.Base.{ℕ, ◌≡◌, refl, Bool, true, false, Option, List, if◌then◌else◌}
use ttl.Base.Words.{add64}
use ttl.Base.Net.{IpAddr}
use ttl.Base.Float.{Float}
use ttl.Base.Windows.{push_capped}
use ttl.Base.Assoc.{upsert, ip_key, measured, upsert-measured}
use ttl.Probe.Mpls.{MplsLabel}
use ttl.Probe.Extensions.Interface.{IcmpInterfaceInfo}
use ttl.State.Responder
use ttl.State.Responder.{ResponderStats}
use ttl.State.Hop.{
  Hop, received_of, answer, record_response_with_extensions,
  record_response_detecting_flaps_with_extensions,
}
use ttl.State.Hop.Responders.{answer-received}

pub record View : Type 0 where
  pub received : ℕ
  pub timeouts : ℕ
  pub counts : List (IpAddr × ℕ)
  pub recent : List Bool

pub answered : IpAddr → View → View
answered ip v = record v {
  received = add64 v.received 1;
  counts = upsert ip 0 (λ c. add64 c 1) v.counts;
  recent = push_capped 60 v.recent true;
}

unfoldable pub timed_out : View → View
timed_out v = record v { timeouts = add64 v.timeouts 1; recent = push_capped 60 v.recent false }

module _ (f64 : Float) where
  unfoldable pub view : Hop f64 → View
  view h = record {
    received = h.received;
    timeouts = h.timeouts;
    counts = measured (received_of f64) h.responders;
    recent = h.recent_results;
  }

  counts-answer :
      (ip : IpAddr) (rtt : ℕ) (labels : Option (List MplsLabel))
      (info : Option (List IcmpInterfaceInfo)) (m : List (IpAddr × ResponderStats f64))
      → measured (received_of f64) (upsert ip (Responder.new f64 ip) (answer f64 rtt labels info) m)
        ≡ upsert ip 0 (λ c. add64 c 1) (measured (received_of f64) m)
  unfolding Responder.new
  counts-answer ip rtt labels info m =
      upsert-measured (received_of f64) ip (Responder.new f64 ip) (answer f64 rtt labels info)
        (λ c. add64 c 1) m (λ s. answer-received f64 rtt labels info s)

  -- An answer, recorded with or without the detection of route changes, does to the view of a hop
  -- what `answered` says, whatever its time, labels and interfaces.
  pub response-view :
      (single : Bool) (ip : IpAddr) (rtt : ℕ) (labels : Option (List MplsLabel))
      (info : Option (List IcmpInterfaceInfo)) (h : Hop f64)
      → view (
          if single
          then record_response_detecting_flaps_with_extensions f64 ip rtt labels info h
          else record_response_with_extensions f64 ip rtt labels info h)
        ≡ answered ip (view h)
  unfolding view answered record_response_with_extensions
      record_response_detecting_flaps_with_extensions
  response-view true ip rtt labels info h =
      rw (← counts-answer ip rtt labels info h.responders) refl
  response-view false ip rtt labels info h =
      rw (← counts-answer ip rtt labels info h.responders) refl
