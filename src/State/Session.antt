-- ===== src/State/Session.antt =====
-- state/session.rs: `Session`, everything known of the trace of one target. Times are numbers that
-- the caller gives: `now` by the calendar, `instant` by the monotonic clock.
pub mod Frame
pub mod Invariant
pub mod Reset
pub mod Replay
pub mod Sample
mod Tests
use Prim.Native.String.{String}
use ttl.Base.{
  ℕ, zero, suc, ◌+◌, ◌-◌, ◌*◌, ◌/◌, ◌%◌, Bool, true, false, ◌||◌, ◌&&◌, Option, none, some, List,
  [], ◌∷◌, ◌++◌, map, ltb, ◌==◌, length, get_elem?, modify, is_some, if◌then◌else◌,
}
use ttl.Base.Words.{add64}
use ttl.Base.Net.{IpAddr, ip_eq, is_ipv6}
use ttl.Base.Float.{Float}
use ttl.Setup.Config.{Config}
use ttl.State.Nat
use ttl.State.Pmtud
use ttl.State.Pmtud.{PmtudState}
use ttl.State.Hop
use ttl.State.Hop.{
  Hop, record_sent, record_response_with_mpls, record_response_detecting_flaps,
  record_flow_response, record_flow_timeout, record_timeout,
}

pub data ProbeOutcome : Type 0 where
  reply : (addr : IpAddr) (rtt_us : ℕ) → ProbeOutcome
  timed_out : ProbeOutcome
  late_reply : (addr : IpAddr) (rtt_us : ℕ) → ProbeOutcome

pub record ProbeEvent : Type 0 where
  pub offset_ms : ℕ
  pub ttl : ℕ
  pub seq : ℕ
  pub flow_id : ℕ
  pub outcome : ProbeOutcome

pub record Target : Type 0 where
  pub original : String
  pub resolved : IpAddr
  pub hostname : Option String
  pub aliases : List String

abbrev pub new_target : String → IpAddr → Target
new_target original resolved = record {
  original = original;
  resolved = resolved;
  hostname = none;
  aliases = [];
}

-- A reading of the two clocks, in nanoseconds.
pub record Clock : Type 0 where
  pub instant : ℕ
  pub now : ℕ

-- `self.dest_ttl.is_none_or(|d| ttl < d)`, and the new destination if so.
abbrev pub nearer : ℕ → Option ℕ → Option ℕ
nearer ttl none = some ttl
nearer ttl (some d) = if ltb ttl d then some ttl else some d

abbrev pub restart_pmtud : Bool → Bool → Option PmtudState → Option PmtudState
restart_pmtud ipv6 jumbo none = none
restart_pmtud ipv6 jumbo (some p) = some (Pmtud.new ipv6 jumbo)

module _ (f64 : Float) where
  pub record Session : Type 0 where
    pub target : Target
    pub started_at : ℕ
    pub started_instant : Option ℕ
    pub hops : List (Hop f64)
    pub config : Config
    pub complete : Bool
    pub dest_ttl : Option ℕ
    pub total_sent : ℕ
    pub paused : Bool
    pub pmtud : Option PmtudState
    pub source_ip : Option IpAddr
    pub gateway : Option IpAddr
    pub events : List ProbeEvent
    pub render_generation : ℕ

  -- The hops of the times to live from `ttl` on.
  unfoldable pub hops_from : ℕ → ℕ → List (Hop f64)
  hops_from ttl zero = []
  hops_from ttl (suc n) = Hop.new f64 ttl ∷ hops_from (ttl + 1) n

  unfoldable pub new : Target → Config → ℕ → ℕ → Session
  unfolding hops_from
  new target config now instant = record {
    target = target;
    started_at = now;
    started_instant = some instant;
    hops = hops_from 1 config.max_ttl;
    config = config;
    complete = false;
    dest_ttl = none;
    total_sent = 0;
    paused = false;
    pmtud = if config.pmtud then some (Pmtud.new (is_ipv6 target.resolved) config.jumbo) else none;
    source_ip = none;
    gateway = none;
    events = [];
    render_generation = 0;
  }

  abbrev pub has_hop : ℕ → Session → Bool
  has_hop ttl s = if ttl == 0 || ltb (length s.hops) ttl then false else true

  unfoldable pub hop : ℕ → Session → Option (Hop f64)
  hop ttl s = if has_hop ttl s then get_elem? s.hops (ttl - 1) else none

  -- `if let Some(hop) = self.hop_mut(ttl) { f(hop) }`
  unfoldable pub with_hop : ℕ → (Hop f64 → Hop f64) → Session → Session
  with_hop ttl f s = if has_hop ttl s then record s { hops = modify (ttl - 1) f s.hops } else s

  -- An answer as the replay records it: route changes are looked for in a single-flow run.
  pub replay_answer : Bool → ℕ → IpAddr → ℕ → Hop f64 → Hop f64
  replay_answer single_flow flow_id addr rtt h = record_flow_response f64 flow_id addr rtt (
      if single_flow
      then record_response_detecting_flaps f64 addr rtt none h
      else record_response_with_mpls f64 addr rtt none h)

  -- The destination is reached, at a smaller time to live if there was one before.
  unfoldable pub reach : ℕ → Session → Session
  reach ttl s = record s { complete = true; dest_ttl = nearer ttl s.dest_ttl }

  abbrev pub count_sent : Session → Session
  count_sent s = record s { total_sent = add64 s.total_sent 1 }

  unfoldable pub replay_outcome : Bool → ProbeEvent → ProbeOutcome → Session → Session
  unfolding with_hop replay_answer reach
  replay_outcome single_flow event (reply addr rtt_us) s =
      let answered =
        with_hop event.ttl
          (λ h. replay_answer single_flow event.flow_id addr (rtt_us * 1000) (record_sent f64 h))
          s in
      count_sent (if ip_eq addr s.target.resolved then reach event.ttl answered else answered)
  replay_outcome single_flow event timed_out s = count_sent (
      with_hop event.ttl
        (λ h. record_flow_timeout f64 event.flow_id (record_timeout f64 (record_sent f64 h))) s)
  replay_outcome single_flow event (late_reply addr rtt_us) s =
      with_hop event.ttl (replay_answer single_flow event.flow_id addr (rtt_us * 1000)) s

  unfoldable pub apply_replay_event : ProbeEvent → Session → Session
  unfolding replay_outcome
  apply_replay_event event s =
      let applied = replay_outcome (s.config.flows == 1) event event.outcome s in
      if has_hop event.ttl s then applied else s

  -- A hop that has been reset: every field but its time to live.
  pub reset_hop : Hop f64 → Hop f64
  reset_hop h = record h {
    sent = 0;
    received = 0;
    timeouts = 0;
    responders = [];
    primary = none;
    recent_results = [];
    flow_paths = [];
    nat_info = none;
    rate_limit = none;
    route_changes = [];
    asymmetry = none;
    ttl_manip = none;
    flap_tracking_primary = none;
  }

  pub reset_stats : ℕ → ℕ → Session → Session
  unfolding reset_hop
  reset_stats now instant s = record s {
    total_sent = 0;
    complete = false;
    dest_ttl = none;
    started_at = now;
    started_instant = some instant;
    pmtud = restart_pmtud (is_ipv6 s.target.resolved) s.config.jumbo s.pmtud;
    events = [];
    hops = map reset_hop s.hops;
  }

  abbrev has_nat_hop : Hop f64 → Bool
  has_nat_hop h = elim h.nat_info [ none ↦ false | some n ↦ Nat.has_nat n ]

  abbrev find_nat : List (Hop f64) → Option ℕ
  find_nat [] = none
  find_nat (h ∷ hs) = if has_nat_hop h then some h.ttl else find_nat hs

  unfoldable pub first_nat_hop : Session → Option ℕ
  first_nat_hop s = find_nat s.hops

  unfoldable pub has_nat : Session → Bool
  has_nat s = is_some (find_nat s.hops)

  unfoldable pub snapshot_for_render : Session → Session
  snapshot_for_render s = record s { events = [] }

  unfoldable pub record_event : ProbeEvent → Session → Session
  record_event event s = record s { events = s.events ++ (event ∷ []) }

  -- The milliseconds since the start, by the monotonic clock where it is known.
  unfoldable pub offset_ms : Clock → Session → ℕ
  offset_ms clock s = elim s.started_instant [
    | some start ↦ (clock.instant - start) / 1000000 % 18446744073709551616
    | none ↦ ((clock.now - s.started_at) + (s.started_at - clock.now)) / 1000000
  ]

  -- What the release of a write guard of `SessionLock` does, after the writer's `f`.
  unfoldable pub under_write_guard : (Session → Session) → Session → Session
  under_write_guard f s =
      let written = f s in
      record written { render_generation = (written.render_generation + 1) % 18446744073709551616 }
