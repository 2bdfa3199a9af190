-- ===== src/State/Flow.antt =====
-- state/session.rs: `FlowPathStats`, what one flow saw at a hop.
pub mod Primary
use ttl.Base.{ℕ, Option, none, some, List, [], ◌==◌, if◌then◌else◌}
use ttl.Base.Words.{add64}
use ttl.Base.Net.{IpAddr}
use ttl.Base.Float.{Float}
use ttl.Base.Assoc.{upsert, max_entry, ip_key}

pub record FlowPathStats : Type 0 where
  pub sent : ℕ
  pub received : ℕ
  pub timeouts : ℕ
  pub primary_responder : Option IpAddr
  pub responder_counts : List (IpAddr × ℕ)

abbrev pub no_stats : FlowPathStats
no_stats = record {
  sent = 0;
  received = 0;
  timeouts = 0;
  primary_responder = none;
  responder_counts = [];
}

-- `.map(|(k, _)| *k)`
abbrev pub key_of {ℓ} : {V : Type ℓ} → Option (IpAddr × V) → Option IpAddr
key_of none = none
key_of (some (k, v)) = some k

unfoldable pub record_sent : FlowPathStats → FlowPathStats
record_sent f = record f { sent = add64 f.sent 1 }

unfoldable pub record_response : IpAddr → FlowPathStats → FlowPathStats
record_response responder f =
    let counts = upsert responder 0 (λ c. add64 c 1) f.responder_counts in
    record f {
      received = add64 f.received 1;
      responder_counts = counts;
      primary_responder = key_of (max_entry (λ c. c) counts);
    }

unfoldable pub record_timeout : FlowPathStats → FlowPathStats
record_timeout f = record f { timeouts = add64 f.timeouts 1 }

module _ (f64 : Float) where
  open f64 use {F64, of_nat, fdiv, fmul, literal}

  -- The percentage of the completed probes that timed out.
  pub loss_of : ℕ → ℕ → F64
  loss_of received timeouts =
      let completed : ℕ = add64 received timeouts in
      if completed == 0
      then literal 0 1
      else fmul (fdiv (of_nat timeouts) (of_nat completed)) (literal 100 1)

  unfoldable pub loss_pct : FlowPathStats → F64
  unfolding loss_of
  loss_pct f = loss_of f.received f.timeouts
