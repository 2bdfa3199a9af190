-- ===== src/State/Flow/Primary.antt =====
-- The primary responder of a flow answered most often, and every answer is counted once.
use ttl.Base.{ℕ, ◌+◌, ◌%◌, ◌≡◌, refl, Option, some, List, [], ◌∷◌, arith, ap, ◌++◌, sym, subst}
use mathlib.Core.Option
use ttl.Base.Words.{add64}
use ttl.Base.Net.{IpAddr}
use ttl.Base.Assoc.{
  upsert, entry, sum_of, sum_of-upsert, le_of_entry, AllAtMost, ip_key, AreDistinct,
  upsert-AreDistinct,
}
use ttl.Base.Leader.{upsert-Leads}
use ttl.State.Flow.{FlowPathStats, no_stats, key_of, record_response}

-- The answers in order.
pub responses : FlowPathStats → List IpAddr → FlowPathStats
responses f [] = f
responses f (ip ∷ ips) = responses (record_response ip f) ips

-- The counts of the responders add up to the answers received, as 64-bit numbers.
pub record IsCounted (f : FlowPathStats) : Type 0 where
  pub summed : f.received ≡ sum_of (λ c. c) f.responder_counts % 18446744073709551616

pub record_response-IsCounted :
    (ip : IpAddr) (f : FlowPathStats) → IsCounted f → IsCounted (record_response ip f)
unfolding record_response
record_response-IsCounted ip f c = record {
  summed =
      let old =
        sum_of-upsert (λ c. c) ip 0 (λ c. (c + 1) % 18446744073709551616) f.responder_counts refl in
      let low = le_of_entry (λ c. c) ip 0 f.responder_counts refl in
      let t = c.summed in omega arith;
}

-- `best` is the primary responder, and no responder of the flow has answered more often.
pub record IsPrimary (f : FlowPathStats) (best : IpAddr) : Type 0 where
  pub chosen : f.primary_responder ≡ some best
  pub most : AllAtMost (λ c. c) (entry best 0 f.responder_counts) f.responder_counts

-- After an answer the flow has a primary responder, and it is one whose count is a largest one.
-- The table of responders still has each of them once.
pub record_response-IsPrimary :
    (ip : IpAddr) (f : FlowPathStats)
    → AreDistinct f.responder_counts
    → AreDistinct (record_response ip f).responder_counts
      × ((best : IpAddr) × IsPrimary (record_response ip f) best)
unfolding record_response
record_response-IsPrimary ip f d =
    let m' = upsert ip 0 (λ c. add64 c 1) f.responder_counts in
    let d' = upsert-AreDistinct ip 0 (λ c. add64 c 1) f.responder_counts d in
    let (best, leads) = upsert-Leads (λ c. c) ip 0 (λ c. add64 c 1) f.responder_counts d in
    (
      d',
      (
        best.0,
        record {
          chosen = ap key_of leads.chosen;
          most =
              subst (λ (o : Option ℕ). AllAtMost (λ c. c) (Option.get_or o 0) m') (sym leads.held)
                leads.most;
        },
      ),
    )

responses-keep :
    (ips : List IpAddr) (f : FlowPathStats)
    → IsCounted f
    → AreDistinct f.responder_counts
    → IsCounted (responses f ips) × AreDistinct (responses f ips).responder_counts
unfolding responses
responses-keep [] f c d = (c, d)
responses-keep (ip ∷ ips) f c d =
    responses-keep ips (record_response ip f) (record_response-IsCounted ip f c)
      (record_response-IsPrimary ip f d).0

responses-append :
    (ips : List IpAddr) (ip : IpAddr) (f : FlowPathStats)
    → responses f (ips ++ (ip ∷ [])) ≡ record_response ip (responses f ips)
unfolding responses
responses-append [] ip f = refl
responses-append (i ∷ ips) ip f = responses-append ips ip (record_response i f)

-- Whatever answers a new flow has got, and in whatever order: after one more answer the answers
-- are all counted, each responder has one count, and the primary responder is one whose count is a
-- largest one.
pub responses-IsPrimary :
    (ips : List IpAddr) (ip : IpAddr)
    → let f = responses no_stats (ips ++ (ip ∷ [])) in
      IsCounted f × AreDistinct f.responder_counts × ((best : IpAddr) × IsPrimary f best)
unfolding sum_of
responses-IsPrimary ips ip =
    let (c, d) = responses-keep ips no_stats (record { summed = refl }) tt in
    let more = record_response-IsPrimary ip (responses no_stats ips) d in
    rw (responses-append ips ip no_stats)
      (record_response-IsCounted ip (responses no_stats ips) c, more.0, more.1)
