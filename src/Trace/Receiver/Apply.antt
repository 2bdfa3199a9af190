-- ===== src/Trace/Receiver/Apply.antt =====
-- trace/receiver.rs: what a matched response, and a probe that timed out, does to its session.
use ttl.Base.{
  ℕ, ◌/◌, ◌%◌, Bool, true, false, ◌&&◌, Option, none, some, List, ◌==◌, is_some, if◌then◌else◌,
}
use ttl.Base.Net.{IpAddr, ip_eq}
use ttl.Base.Float.{Float}
use ttl.Probe.Id.{ProbeId}
use ttl.Probe.Mpls.{MplsLabel}
use ttl.Probe.Extensions.Interface.{IcmpInterfaceInfo}
use ttl.Probe.Response.{
  IcmpResponseType, echo_reply, time_exceeded, dest_unreachable, packet_too_big,
}
use ttl.State.Pmtud.{
  PmtudPhase, waiting_for_destination, searching, complete, PmtudState, record_success,
  record_failure, record_frag_needed,
}
use ttl.State.Hop.{
  Hop, record_response_with_extensions, record_response_detecting_flaps_with_extensions,
  record_flow_response, record_flow_timeout, record_timeout, record_nat_check, record_response_ttl,
  record_ttl_manip_check,
}
use ttl.State.Session.{
  Session, ProbeEvent, Clock, reply, timed_out, with_hop, reach, record_event, offset_ms,
}
use ttl.Trace.Pending.{PendingProbe, PendingKey}

pub record BatchedResponse : Type 0 where
  pub probe_id : ProbeId
  pub responder : IpAddr
  pub rtt : ℕ
  pub mpls_labels : Option (List MplsLabel)
  pub interface_info : Option (List IcmpInterfaceInfo)
  pub response_type : IcmpResponseType
  pub target : IpAddr
  pub flow_id : ℕ
  pub original_src_port : Option ℕ
  pub returned_src_port : Option ℕ
  pub packet_size : Option ℕ
  pub reported_mtu : Option ℕ
  pub response_ttl : Option ℕ
  pub quoted_ttl : Option ℕ

-- The fields of `ReceiverConfig` but those that choose the socket.
pub record ReceiverConfig : Type 0 where
  pub timeout : ℕ
  pub ipv6 : Bool
  pub src_port_base : ℕ
  pub num_flows : ℕ

abbrev pub is_frag_needed : IcmpResponseType → Bool
is_frag_needed echo_reply = false
is_frag_needed (time_exceeded code) = false
is_frag_needed (dest_unreachable code) = code == 4
is_frag_needed packet_too_big = true

abbrev pub is_echo_reply : IcmpResponseType → Bool
is_echo_reply echo_reply = true
is_echo_reply (time_exceeded code) = false
is_echo_reply (dest_unreachable code) = false
is_echo_reply packet_too_big = false

-- `TimeExceeded(0)`, a TTL exceeded in transit.
abbrev pub is_ttl_exceeded : IcmpResponseType → Bool
is_ttl_exceeded echo_reply = false
is_ttl_exceeded (time_exceeded code) = code == 0
is_ttl_exceeded (dest_unreachable code) = false
is_ttl_exceeded packet_too_big = false

abbrev pub is_searching : PmtudPhase → Bool
is_searching searching = true
is_searching waiting_for_destination = false
is_searching complete = false

-- `f` on a search under way whose current size is that of the probe.
unfoldable pub on_current_size :
    Option ℕ → (PmtudState → PmtudState) → Option PmtudState → Option PmtudState
on_current_size (some probe_size) f (some p) =
    some (if is_searching p.phase && probe_size == p.current_size then f p else p)
on_current_size _ f p = p

unfoldable pub pmtud_answer : IcmpResponseType → Option ℕ → PmtudState → PmtudState
pmtud_answer response_type reported_mtu p =
    if is_frag_needed response_type
    then elim reported_mtu [ none ↦ record_failure p | some mtu ↦ record_frag_needed p mtu ]
    else record_success p

-- `rtt.as_micros() as u64`
abbrev pub reply_event : ℕ → BatchedResponse → ProbeEvent
reply_event offset_ms resp = record {
  offset_ms = offset_ms;
  ttl = resp.probe_id.ttl;
  seq = resp.probe_id.seq;
  flow_id = resp.flow_id;
  outcome = reply resp.responder (resp.rtt / 1000 % 18446744073709551616);
}

abbrev pub timeout_event : ℕ → PendingKey → PendingProbe → ProbeEvent
timeout_event offset_ms key probe = record {
  offset_ms = offset_ms;
  ttl = key.probe_id.ttl;
  seq = key.probe_id.seq;
  flow_id = probe.flow_id;
  outcome = timed_out;
}

module _ (f64 : Float) where
  -- `if let Some(ttl) = … && test { … }`
  abbrev pub check_response_ttl : Bool → Option ℕ → Bool → Hop f64 → Hop f64
  check_response_ttl single (some ttl) ipv6 h =
      if single then record_response_ttl f64 ttl ipv6 h else h
  check_response_ttl single none ipv6 h = h

  abbrev pub check_quoted_ttl : IcmpResponseType → Option ℕ → Hop f64 → Hop f64
  check_quoted_ttl response_type (some quoted) h =
      if is_ttl_exceeded response_type then record_ttl_manip_check f64 quoted h else h
  check_quoted_ttl response_type none h = h

  unfoldable pub answer_hop : ReceiverConfig → BatchedResponse → Hop f64 → Hop f64
  answer_hop config resp h =
      let single = config.num_flows == 1 in
      let answered : Hop f64 =
        if single
        then record_response_detecting_flaps_with_extensions f64 resp.responder resp.rtt
            resp.mpls_labels resp.interface_info h
        else record_response_with_extensions f64 resp.responder resp.rtt resp.mpls_labels
            resp.interface_info h in
      check_quoted_ttl resp.response_type resp.quoted_ttl (
        check_response_ttl single resp.response_ttl config.ipv6 (
          record_nat_check f64 resp.original_src_port resp.returned_src_port
            (record_flow_response f64 resp.flow_id resp.responder resp.rtt answered)))

  -- The hop and the event, for a probe of the trace itself.
  unfoldable pub answer_trace : ReceiverConfig → Clock → BatchedResponse → Session f64 → Session f64
  unfolding answer_hop
  answer_trace config clock resp s =
      if is_some resp.packet_size
      then s
      else record_event f64 (reply_event (offset_ms f64 clock s) resp)
          (with_hop f64 resp.probe_id.ttl (answer_hop config resp) s)

  -- An Echo Reply of the target itself.
  unfoldable pub check_destination : BatchedResponse → Session f64 → Session f64
  check_destination resp s =
      if is_echo_reply resp.response_type && ip_eq resp.responder resp.target
      then reach f64 resp.probe_id.ttl s
      else s

  abbrev pub change_pmtud : (Option PmtudState → Option PmtudState) → Session f64 → Session f64
  change_pmtud f s = record s { pmtud = f s.pmtud }

  -- One response of the batch.
  unfoldable pub apply_response :
      ReceiverConfig → Clock → BatchedResponse → Session f64 → Session f64
  unfolding answer_trace check_destination
  apply_response config clock resp s =
      change_pmtud
        (on_current_size resp.packet_size (pmtud_answer resp.response_type resp.reported_mtu))
        (check_destination resp (answer_trace config clock resp s))

  unfoldable pub timeout_trace :
      Bool → Clock → PendingKey → PendingProbe → Session f64 → Session f64
  timeout_trace record_events clock key probe s =
      let timed : Session f64 =
        with_hop f64 key.probe_id.ttl
          (λ h. record_flow_timeout f64 probe.flow_id (record_timeout f64 h)) s in
      if key.is_pmtud
      then s
      else if record_events
      then record_event f64 (timeout_event (offset_ms f64 clock s) key probe) timed
      else timed

  -- One probe of `record_pending_timeouts`.
  unfoldable pub record_pending_timeout :
      Bool → Bool → Clock → PendingKey → PendingProbe → Session f64 → Session f64
  unfolding timeout_trace
  record_pending_timeout record_events update_pmtud clock key probe s =
      let timed : Session f64 = timeout_trace record_events clock key probe s in
      if update_pmtud
      then change_pmtud (on_current_size probe.packet_size record_failure) timed
      else timed
