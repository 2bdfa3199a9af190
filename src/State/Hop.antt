-- ===== src/State/Hop.antt =====
-- state/session.rs: `Hop`, what is known of one time to live.
pub mod Responders
pub mod History
pub mod Flaps
pub mod View
pub mod Ecmp
mod Tests
use ttl.Base.{
  ℕ, ◌+◌, Bool, true, false, ◌&&◌, ◌||◌, not, Option, none, some, List, [], ◌∷◌, ◌++◌, ltb, leb,
  ◌==◌, length, drop, if◌then◌else◌,
}
use ttl.Base.Words.{add64}
use ttl.Base.Net.{IpAddr, ip_eq}
use ttl.Base.Float.{Float}
use ttl.Base.Assoc.{get, upsert, max_entry, nat_key, ip_key}
use ttl.Base.Windows.{push_capped}
use ttl.Probe.Mpls.{MplsLabel}
use ttl.Probe.Extensions.Interface.{IcmpInterfaceInfo}
use ttl.State.Responder
use ttl.State.Responder.{ResponderStats}
use ttl.State.Flow
use ttl.State.Flow.{FlowPathStats, no_stats, key_of, loss_of}
use ttl.State.Nat
use ttl.State.Nat.{NatInfo}
use ttl.State.Asymmetry
use ttl.State.Asymmetry.{AsymmetryInfo}
use ttl.State.RateLimitInfo.{RateLimitInfo}
use ttl.State.TtlManip
use ttl.State.TtlManip.{TtlManipInfo}

pub record RouteChange : Type 0 where
  pub from_ip : IpAddr
  pub to_ip : IpAddr
  pub at_seq : ℕ

abbrev pub or_default {ℓ} : {A : Type ℓ} → A → Option A → A
or_default d none = d
or_default d (some a) = a

abbrev pub if_some {ℓ} : {A : Type ℓ} → Option A → Option A → Option A
if_some none old = old
if_some (some new) old = some new

-- The change from `old` to `new`, if both are known and differ, from the fifth answer on.
pub note_change : ℕ → Option IpAddr → Option IpAddr → List RouteChange → List RouteChange
note_change received (some old) (some new) changes =
    if leb 5 received && not (ip_eq old new)
    then push_capped 50 changes (record { from_ip = old; to_ip = new; at_seq = received })
    else changes
note_change received _ _ changes = changes

module _ (f64 : Float) where
  pub record Hop : Type 0 where
    pub ttl : ℕ
    pub sent : ℕ
    pub received : ℕ
    pub timeouts : ℕ
    pub responders : List (IpAddr × ResponderStats f64)
    pub primary : Option IpAddr
    pub recent_results : List Bool
    pub flow_paths : List (ℕ × FlowPathStats)
    pub nat_info : Option NatInfo
    pub rate_limit : Option (RateLimitInfo f64)
    pub route_changes : List RouteChange
    pub asymmetry : Option (AsymmetryInfo f64)
    pub ttl_manip : Option (TtlManipInfo f64)
    pub flap_tracking_primary : Option IpAddr

  unfoldable pub new : ℕ → Hop
  new ttl = record {
    ttl = ttl;
    sent = 0;
    received = 0;
    timeouts = 0;
    responders = [];
    primary = none;
    recent_results = [];
    flow_paths = [];
    nat_info = none;
    rate_limit = none;
    route_changes = [];
    asymmetry = none;
    ttl_manip = none;
    flap_tracking_primary = none;
  }

  unfoldable pub record_sent : Hop → Hop
  record_sent h = record h { sent = add64 h.sent 1 }

  abbrev pub received_of : ResponderStats f64 → ℕ
  received_of s = s.received

  pub update_primary : Hop → Hop
  update_primary h = record h { primary = key_of (max_entry received_of h.responders) }

  -- What an answer does to the statistics of its responder.
  unfoldable pub answer :
      ℕ
      → Option (List MplsLabel)
      → Option (List IcmpInterfaceInfo)
      → ResponderStats f64
      → ResponderStats f64
  answer rtt mpls_labels interface_info s =
      let timed = Responder.record_response f64 rtt s in
      record timed {
        mpls_labels = if_some mpls_labels timed.mpls_labels;
        interface_info = if_some interface_info timed.interface_info;
      }

  unfoldable pub record_response_with_extensions :
      IpAddr → ℕ → Option (List MplsLabel) → Option (List IcmpInterfaceInfo) → Hop → Hop
  unfolding update_primary
  record_response_with_extensions ip rtt mpls_labels interface_info h = update_primary (record h {
    received = add64 h.received 1;
    responders =
        upsert ip (Responder.new f64 ip) (answer rtt mpls_labels interface_info) h.responders;
    recent_results = push_capped 60 h.recent_results true;
  })

  unfoldable pub record_response_with_mpls : IpAddr → ℕ → Option (List MplsLabel) → Hop → Hop
  unfolding record_response_with_extensions
  record_response_with_mpls ip rtt mpls_labels =
      record_response_with_extensions ip rtt mpls_labels none

  unfoldable pub record_response : IpAddr → ℕ → Hop → Hop
  unfolding record_response_with_mpls
  record_response ip rtt = record_response_with_mpls ip rtt none

  -- The answers of the responder that the detection of route changes tracks.
  pub tracked_count : Option IpAddr → List (IpAddr × ResponderStats f64) → ℕ
  tracked_count none responders = 0
  tracked_count (some ip) responders = elim (get ip responders) [ none ↦ 0 | some s ↦ s.received ]

  -- The responder tracked, with hysteresis.
  pub track : Option IpAddr → List (IpAddr × ResponderStats f64) → Option IpAddr
  unfolding tracked_count
  track tracked responders =
      let current_count = tracked_count tracked responders in
      elim (max_entry received_of responders) [
        | none ↦ tracked
        | some leader ↦ elim tracked [
          | none ↦ some leader.0
          | some old ↦
              if leb (add64 current_count 2) leader.1.received then some leader.0 else some old
        ]
      ]

  unfoldable pub record_response_detecting_flaps_with_extensions :
      IpAddr → ℕ → Option (List MplsLabel) → Option (List IcmpInterfaceInfo) → Hop → Hop
  unfolding record_response_with_extensions track note_change
  record_response_detecting_flaps_with_extensions ip rtt mpls_labels interface_info h =
      let h' = record_response_with_extensions ip rtt mpls_labels interface_info h in
      let tracked = track h'.flap_tracking_primary h'.responders in
      record h' {
        flap_tracking_primary = tracked;
        route_changes = note_change h'.received h.flap_tracking_primary tracked h'.route_changes;
      }

  unfoldable pub record_response_detecting_flaps : IpAddr → ℕ → Option (List MplsLabel) → Hop → Hop
  unfolding record_response_detecting_flaps_with_extensions
  record_response_detecting_flaps ip rtt mpls_labels =
      record_response_detecting_flaps_with_extensions ip rtt mpls_labels none

  unfoldable pub record_timeout : Hop → Hop
  record_timeout h = record h {
    timeouts = add64 h.timeouts 1;
    recent_results = push_capped 60 h.recent_results false;
  }

  unfoldable pub loss_pct : Hop → f64.F64
  loss_pct h = loss_of f64 h.received h.timeouts

  unfoldable pub record_flow_sent : ℕ → Hop → Hop
  record_flow_sent flow_id h = record h {
    flow_paths = upsert flow_id no_stats Flow.record_sent h.flow_paths;
  }

  -- The round-trip time is recorded by `record_response`.
  unfoldable pub record_flow_response : ℕ → IpAddr → ℕ → Hop → Hop
  record_flow_response flow_id responder rtt h = record h {
    flow_paths = upsert flow_id no_stats (Flow.record_response responder) h.flow_paths;
  }

  unfoldable pub record_flow_timeout : ℕ → Hop → Hop
  record_flow_timeout flow_id h = record h {
    flow_paths = upsert flow_id no_stats Flow.record_timeout h.flow_paths;
  }

  unfoldable pub record_nat_check : Option ℕ → Option ℕ → Hop → Hop
  record_nat_check original returned h = record h {
    nat_info = Nat.record_nat_check h.nat_info original returned;
  }

  unfoldable pub record_response_ttl : ℕ → Bool → Hop → Hop
  record_response_ttl response_ttl ipv6 h = record h {
    asymmetry = some (
        Asymmetry.record_response f64 h.ttl response_ttl ipv6
          (or_default (Asymmetry.fresh f64) h.asymmetry));
  }

  unfoldable pub record_ttl_manip_check : ℕ → Hop → Hop
  record_ttl_manip_check quoted_ttl h = record h {
    ttl_manip =
        some (
          TtlManip.record_sample f64 h.ttl quoted_ttl
            (or_default (TtlManip.fresh f64) h.ttl_manip));
  }
