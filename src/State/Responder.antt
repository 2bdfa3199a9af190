-- ===== src/State/Responder.antt =====
-- state/session.rs: `ResponderStats`, the times of one responder. Durations are nanoseconds. What
-- the lookup services fill in (host name, AS, place, exchange) is left out; no method reads it.
pub mod Window
use ttl.Base.{ℕ, ◌+◌, ◌-◌, ◌*◌, ◌/◌, ◌^◌, Option, none, some, List, [], ltb, ◌==◌, if◌then◌else◌}
use ttl.Base.Words.{add64}
use ttl.Base.Net.{IpAddr}
use ttl.Base.Float.{Float}
use ttl.Base.Windows.{push_capped}
use ttl.Probe.Mpls.{MplsLabel}
use ttl.Probe.Extensions.Interface.{IcmpInterfaceInfo}

-- `Duration::MAX`
abbrev pub longest : ℕ
longest = 2 ^ 64 * 1000000000 - 1

abbrev pub micros : ℕ → ℕ
micros rtt = rtt / 1000

module _ (f64 : Float) where
  open f64 use {F64, of_nat, literal, fadd, fsub, fmul, fdiv, fabs, flt}

  pub record ResponderStats : Type 0 where
    pub ip : IpAddr
    pub mpls_labels : Option (List MplsLabel)
    pub interface_info : Option (List IcmpInterfaceInfo)
    pub sent : ℕ
    pub received : ℕ
    pub min_rtt : ℕ
    pub max_rtt : ℕ
    pub mean_rtt : F64
    pub m2 : F64
    pub jitter : F64
    pub jitter_avg : F64
    pub jitter_max : F64
    pub last_rtt : Option ℕ
    pub recent : List (Option ℕ)
    pub samples : List ℕ

  unfoldable pub new : IpAddr → ResponderStats
  new ip = record {
    ip = ip;
    mpls_labels = none;
    interface_info = none;
    sent = 0;
    received = 0;
    min_rtt = longest;
    max_rtt = 0;
    mean_rtt = literal 0 1;
    m2 = literal 0 1;
    jitter = literal 0 1;
    jitter_avg = literal 0 1;
    jitter_max = literal 0 1;
    last_rtt = none;
    recent = [];
    samples = [];
  }

  -- The count, the extremes, and Welford's mean and variance.
  pub update_times : ℕ → ResponderStats → ResponderStats
  update_times rtt s =
      let received : ℕ = add64 s.received 1 in
      let rtt_micros : F64 = of_nat (micros rtt) in
      let delta : F64 = fsub rtt_micros s.mean_rtt in
      let mean : F64 = fadd s.mean_rtt (fdiv delta (of_nat received)) in
      record s {
        received = received;
        min_rtt = if ltb rtt s.min_rtt then rtt else s.min_rtt;
        max_rtt = if ltb s.max_rtt rtt then rtt else s.max_rtt;
        mean_rtt = mean;
        m2 = fadd s.m2 (fmul delta (fsub rtt_micros mean));
      }

  -- The jitter, once there is a last sample. `received` has been counted up before.
  pub update_jitter : ℕ → Option ℕ → ResponderStats → ResponderStats
  update_jitter rtt none s = s
  update_jitter rtt (some last) s =
      let diff : F64 = fabs (fsub (of_nat (micros rtt)) (of_nat (micros last))) in
      record s {
        jitter = fadd s.jitter (fdiv (fsub diff s.jitter) (literal 16 1));
        jitter_max = if flt s.jitter_max diff then diff else s.jitter_max;
        jitter_avg = fadd s.jitter_avg (fdiv (fsub diff s.jitter_avg) (of_nat (s.received - 1)));
      }

  unfoldable pub record_response : ℕ → ResponderStats → ResponderStats
  unfolding update_times update_jitter
  record_response rtt s =
      let timed = update_jitter rtt s.last_rtt (update_times rtt s) in
      record timed {
        last_rtt = some rtt;
        recent = push_capped 60 timed.recent (some rtt);
        samples = push_capped 256 timed.samples rtt;
      }

  unfoldable pub record_timeout : ResponderStats → ResponderStats
  record_timeout s = record s { recent = push_capped 60 s.recent none }

  unfoldable pub loss_pct : ResponderStats → F64
  loss_pct s =
      if s.sent == 0
      then literal 0 1
      else fmul (fsub (literal 1 1) (fdiv (of_nat s.received) (of_nat s.sent))) (literal 100 1)
