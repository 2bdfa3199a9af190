-- ===== src/Export/Diff.antt =====
-- export/diff.rs: `diff_sessions`, what changed at each hop between two saved sessions. The names of
-- the files and the targets, the start times and the host names, which are only copied, are left out.
pub mod Same
pub mod Mirror
use mathlib.Core.Option
use ttl.Base.{
  ℕ, zero, suc, ◌+◌, ◌*◌, ◌/◌, ◌%◌, max, Bool, true, false, ◌&&◌, ◌||◌, not, Option, none, some,
  List, [], ◌∷◌, map, length, get_elem?, keep, ltb, leb, ◌==◌, if◌then◌else◌,
}
use ttl.Base.Net.{IpAddr, v4, v6, ip_eq}
use ttl.Base.Float.{Float}
use ttl.Base.Assoc.{get, ip_key}
use ttl.State.Responder.{ResponderStats}
use ttl.State.Hop
use ttl.State.Hop.{Hop}
use ttl.State.Session.{Session}

pub data HopChange : Type 0 where
  unchanged path_change added lost : HopChange

-- The order on addresses: IPv4 before IPv6.
abbrev pub ip_le : IpAddr → IpAddr → Bool
ip_le (v4 a) (v4 b) = leb a b
ip_le (v4 a) (v6 b) = true
ip_le (v6 a) (v4 b) = false
ip_le (v6 a) (v6 b) = leb a b

abbrev insert : IpAddr → List IpAddr → List IpAddr
insert ip [] = ip ∷ []
insert ip (first ∷ more) =
    let rest = insert ip more in if ip_le ip first then ip ∷ first ∷ more else first ∷ rest

-- `sort`
abbrev pub sort : List IpAddr → List IpAddr
sort [] = []
sort (ip ∷ ips) = insert ip (sort ips)

-- `contains`
abbrev pub contains : IpAddr → List IpAddr → Bool
contains ip [] = false
contains ip (first ∷ more) = ip_eq first ip || contains ip more

-- `==` on optional addresses.
abbrev pub same_ip : Option IpAddr → Option IpAddr → Bool
same_ip none none = true
same_ip (some a) (some b) = ip_eq a b
same_ip _ _ = false

module _ (f64 : Float) where
  open f64 use {F64, of_nat, literal, fadd, fsub, fmul, fdiv, fabs, fle, to_u64}

  pub record HopSnapshot : Type 0 where
    pub primary : Option IpAddr
    pub avg_rtt_ms : Option F64
    pub loss_pct : F64
    pub responders : List IpAddr

  -- `as_secs_f64`, of whole microseconds: the seconds and the nanoseconds beside them.
  abbrev pub as_secs_f64 : ℕ → F64
  as_secs_f64 us =
      fadd (of_nat (us / 1000000)) (fdiv (of_nat (us % 1000000 * 1000)) (literal 1000000000 1))

  -- `s.avg_rtt().as_secs_f64() * 1000.0`
  abbrev pub avg_rtt_ms : ResponderStats f64 → F64
  avg_rtt_ms s = fmul (as_secs_f64 (to_u64 s.mean_rtt)) (literal 1000 1)

  abbrev pub primary_stats : Hop f64 → Option (ResponderStats f64)
  primary_stats h = elim h.primary [ none ↦ none | some ip ↦ get ip h.responders ]

  pub from_hop : Hop f64 → Option HopSnapshot
  from_hop h =
      if h.received == 0
      then none
      else some (record {
        primary = h.primary;
        avg_rtt_ms = Option.map avg_rtt_ms (primary_stats h);
        loss_pct = Hop.loss_pct f64 h;
        responders = sort (map (λ (e : IpAddr × ResponderStats f64). e.0) h.responders);
      })

  pub record HopDiff : Type 0 where
    pub ttl : ℕ
    pub change : HopChange
    pub before : Option HopSnapshot
    pub after : Option HopSnapshot
    pub avg_rtt_delta_ms : Option F64
    pub loss_delta_pct : Option F64
    pub rtt_significant : Bool
    pub responders_added : List IpAddr
    pub responders_removed : List IpAddr

  abbrev pub rtt_delta : Option F64 → Option F64 → Option F64
  rtt_delta (some before) (some after) = some (fsub after before)
  rtt_delta _ _ = none

  abbrev pub is_significant : Option F64 → Option F64 → Bool
  is_significant none before = false
  is_significant (some delta) before =
      let base = Option.get_or before (literal 0 1) in
      fle (literal 5 1) (fabs delta) && fle (fmul base (literal 20 100)) (fabs delta)

  -- The members of `xs` that `ys` does not have.
  abbrev pub missing : List IpAddr → List IpAddr → List IpAddr
  missing ys xs = keep (λ ip. not (contains ip ys)) xs

  -- The difference at one time to live, unless the hop is silent in both sessions.
  pub diff_hop : ℕ → Option HopSnapshot → Option HopSnapshot → Option HopDiff
  diff_hop ttl none none = none
  diff_hop ttl none (some a) = some (record {
    ttl = ttl;
    change = added;
    before = none;
    after = some a;
    avg_rtt_delta_ms = none;
    loss_delta_pct = none;
    rtt_significant = false;
    responders_added = [];
    responders_removed = [];
  })
  diff_hop ttl (some b) none = some (record {
    ttl = ttl;
    change = lost;
    before = some b;
    after = none;
    avg_rtt_delta_ms = none;
    loss_delta_pct = none;
    rtt_significant = false;
    responders_added = [];
    responders_removed = [];
  })
  diff_hop ttl (some b) (some a) = some (record {
    ttl = ttl;
    change = if same_ip b.primary a.primary then unchanged else path_change;
    before = some b;
    after = some a;
    avg_rtt_delta_ms = rtt_delta b.avg_rtt_ms a.avg_rtt_ms;
    loss_delta_pct = some (fsub a.loss_pct b.loss_pct);
    rtt_significant = is_significant (rtt_delta b.avg_rtt_ms a.avg_rtt_ms) b.avg_rtt_ms;
    responders_added = missing b.responders a.responders;
    responders_removed = missing a.responders b.responders;
  })

  abbrev pub snapshot_at : ℕ → Session f64 → Option HopSnapshot
  snapshot_at i s = elim (get_elem? s.hops i) [ none ↦ none | some h ↦ from_hop h ]

  -- The differences at the `n` indices from `i` on.
  pub diff_from : ℕ → ℕ → Session f64 → Session f64 → List HopDiff
  unfolding from_hop diff_hop
  diff_from zero i before after = []
  diff_from (suc n) i before after =
      let rest = diff_from n (i + 1) before after in
      elim (diff_hop ((i + 1) % 256) (snapshot_at i before) (snapshot_at i after)) [
        | none ↦ rest
        | some d ↦ d ∷ rest
      ]

  -- The hops of `diff_sessions`.
  pub diff_sessions : Session f64 → Session f64 → List HopDiff
  unfolding diff_from
  diff_sessions before after =
      diff_from (max (length before.hops) (length after.hops)) 0 before after

  abbrev pub is_unchanged : HopChange → Bool
  is_unchanged unchanged = true
  is_unchanged path_change = false
  is_unchanged added = false
  is_unchanged lost = false

  abbrev pub hop_changed : HopDiff → Bool
  hop_changed d =
      not (is_unchanged d.change)
      || ltb 0 (length d.responders_added)
      || ltb 0 (length d.responders_removed)

  abbrev pub any_changed : List HopDiff → Bool
  any_changed [] = false
  any_changed (d ∷ ds) = hop_changed d || any_changed ds

  -- `filter(|h| h.rtt_significant).count()`
  abbrev pub rtt_shifts : List HopDiff → ℕ
  rtt_shifts ds = length (keep (λ (d : HopDiff). d.rtt_significant) ds)

  pub has_changes : List HopDiff → Bool
  has_changes ds = ltb 0 (rtt_shifts ds) || any_changed ds
