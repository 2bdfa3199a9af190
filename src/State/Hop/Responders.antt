-- ===== src/State/Hop/Responders.antt =====
-- state/session.rs, `Hop`: the responders of a hop, and the primary one.
use ttl.Base.{ℕ, ◌+◌, ◌%◌, ◌≡◌, refl, ap, Option, some, List, arith}
use ttl.Base.Net.{IpAddr}
use ttl.Base.Float.{Float}
use ttl.Base.Assoc.{
  get, sum_of, sum_of-upsert, le_of_entry, AllAtMost, AreDistinct, upsert-AreDistinct, ip_key,
  entry,
}
use ttl.Base.Leader.{upsert-Leads}
use ttl.Probe.Mpls.{MplsLabel}
use ttl.Probe.Extensions.Interface.{IcmpInterfaceInfo}
use ttl.State.Responder
use ttl.State.Responder.{ResponderStats}
use ttl.State.Flow.{key_of}
use ttl.State.Hop
use ttl.State.Hop.{
  Hop, received_of, answer, record_response_with_extensions,
  record_response_detecting_flaps_with_extensions, record_timeout, record_sent,
}

module _ (f64 : Float) where
  -- The primary responder is one that the hop knows, and no other has answered more often.
  pub record IsPrimary (h : Hop f64) (best : IpAddr) (s : ResponderStats f64) : Type 0 where
    pub chosen : h.primary ≡ some best
    pub held : get best h.responders ≡ some s
    pub most : AllAtMost (received_of f64) s.received h.responders

  -- Each responder stands once in the table, and the answers are those of the responders together,
  -- as 64-bit numbers.
  pub record IsConsistent (h : Hop f64) : Type 0 where
    pub distinct : AreDistinct h.responders
    pub counted : h.received ≡ sum_of (received_of f64) h.responders % 18446744073709551616

  pub answer-received :
      (rtt : ℕ) (labels : Option (List MplsLabel)) (info : Option (List IcmpInterfaceInfo))
      (s : ResponderStats f64)
      → (answer f64 rtt labels info s).received ≡ (s.received + 1) % 18446744073709551616
  unfolding answer Responder.record_response
  answer-received rtt labels info s = ground arith

  pub fresh-received : (ip : IpAddr) → (Responder.new f64 ip).received ≡ 0
  unfolding Responder.new
  fresh-received ip = refl

  pub new-IsConsistent : (ttl : ℕ) → IsConsistent (Hop.new f64 ttl)
  unfolding Hop.new sum_of
  new-IsConsistent ttl = record { distinct = tt; counted = refl }

  -- An answer of any responder to a hop whose table of responders is consistent leaves it so, and
  -- leaves a primary responder, one that no responder of the table has answered more often than.
  pub record_response_with_extensions-IsPrimary :
      (ip : IpAddr) (rtt : ℕ) (labels : Option (List MplsLabel))
      (info : Option (List IcmpInterfaceInfo)) (h : Hop f64)
      → IsConsistent h
      → let h' = record_response_with_extensions f64 ip rtt labels info h in
        IsConsistent h' × ((best : IpAddr) × (s : ResponderStats f64) × IsPrimary h' best s)
  unfolding record_response_with_extensions
  record_response_with_extensions-IsPrimary ip rtt labels info h c =
      let fresh = Responder.new f64 ip in
      let f = answer f64 rtt labels info in
      let (e, leads) = upsert-Leads (received_of f64) ip fresh f h.responders c.distinct in
      let old = sum_of-upsert (received_of f64) ip fresh f h.responders (fresh-received ip) in
      let low = le_of_entry (received_of f64) ip fresh h.responders (fresh-received ip) in
      let more = answer-received rtt labels info (entry ip fresh h.responders) in
      let sum = c.counted in
      (
        record {
          distinct = upsert-AreDistinct ip fresh f h.responders c.distinct;
          counted = omega arith;
        },
        (
          e.0,
          e.1,
          record { chosen = ap key_of leads.chosen; held = leads.held; most = leads.most },
        ),
      )
