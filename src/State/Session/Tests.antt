-- ===== src/State/Session/Tests.antt =====
-- The theorems on a session and the analysis of rate limits, applied to a small session.
use mathlib.Core.Option
use ttl.Base.{◌≡◌, true, none, some, List, [], ◌∷◌, arith}
use ttl.Base.Net.{v4}
use ttl.Base.Float.{thousandths}
use ttl.State.RateLimitInfo.{RateLimitInfo}
use ttl.State.Hop
use ttl.State.Hop.{Hop, record_response_with_extensions}
use ttl.State.RateLimit.{
  judge, detect_rate_limiting, find_next_responding_hop_loss, analyze_rate_limiting,
}
use ttl.State.RateLimit.Verdicts.{analyze-hop}
use ttl.State.RateLimit.Clearing.{Unsupported, AllEnough, rechecks, rechecks-none_after}
use ttl.State.Session
use ttl.State.Session.Sample.{two_hops, host, begun}
use ttl.State.Session.{
  Session, ProbeEvent, Target, reply, new_target, hop, apply_replay_event, reset_stats,
}
use ttl.State.Session.Invariant.{IsWellFormed, new-IsWellFormed, apply_replay_event-IsWellFormed}
use ttl.State.Session.Reset.{reset_stats-eq-new}

abbrev reached_host : ProbeEvent
reached_host = record { offset_ms = 3; ttl = 2; seq = 1; flow_id = 0; outcome = reply (v4 8) 20 }

begun-IsWellFormed : IsWellFormed thousandths begun
begun-IsWellFormed = new-IsWellFormed thousandths host two_hops 5 7

apply_replay_event-IsWellFormed_example :
    IsWellFormed thousandths (apply_replay_event thousandths reached_host begun)
apply_replay_event-IsWellFormed_example =
    apply_replay_event-IsWellFormed thousandths reached_host begun begun-IsWellFormed

abbrev replayed : Session thousandths
replayed = apply_replay_event thousandths reached_host begun

reset_stats-eq-new_example :
    reset_stats thousandths 50 70 replayed
    ≡ record (Session.new thousandths replayed.target replayed.config 50 70) {
      paused = replayed.paused;
      source_ip = replayed.source_ip;
      gateway = replayed.gateway;
      render_generation = replayed.render_generation;
    }
reset_stats-eq-new_example =
    reset_stats-eq-new thousandths 50 70 replayed
      (apply_replay_event-IsWellFormed thousandths reached_host begun begun-IsWellFormed)

-- The first hop has lost a fifth of its probes, the second none.
abbrev lossy : Session thousandths
lossy = record begun {
  hops =
      record (Hop.new thousandths 1) { received = 80; timeouts = 20 }
      ∷ record (Hop.new thousandths 2) { received = 100 }
      ∷ [];
}

analyze-hop_example :
    hop thousandths 1 (analyze_rate_limiting thousandths lossy)
    ≡ Option.map
        (judge thousandths
          (detect_rate_limiting thousandths lossy 1)
          (find_next_responding_hop_loss thousandths lossy 1))
        (hop thousandths 1 lossy)
analyze-hop_example = analyze-hop thousandths 1 lossy (omega arith)

-- A hop that has answered 21 probes, and lost none.
abbrev answering : Unsupported thousandths
answering = record { seen = record (Hop.new thousandths 2) { received = 21 }; downstream = none }

abbrev suspected : RateLimitInfo thousandths
suspected = record {
  suspected = true;
  confidence = 850;
  reason = none;
  hop_loss = 20000;
  downstream_loss = none;
  negative_checks = 0;
}

abbrev five : List (Unsupported thousandths)
five = answering ∷ answering ∷ answering ∷ answering ∷ answering ∷ []

rechecks-none_after_example : rechecks thousandths five (some suspected) ≡ none
unfolding AllEnough Hop.new
rechecks-none_after_example =
    rechecks-none_after thousandths five (some suspected) (ground arith) (omega arith)
