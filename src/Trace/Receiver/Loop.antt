-- ===== src/Trace/Receiver/Loop.antt =====
-- trace/receiver.rs: the steps of the receiver's loop on the pending probes and the sessions. The
-- socket and the clocks are its caller's: each step is given the packet and the times it read.
use ttl.Base.{
  ℕ, suc, ◌-◌, Bool, true, false, ◌||◌, Option, none, some, List, [], ◌∷◌, ltb, keep, not,
}
use mathlib.Core.Option
use ttl.Base.Net.{IpAddr}
use ttl.Base.Float.{Float}
use ttl.Base.Assoc.{adjust, ip_key}
use ttl.Probe.Id.{ProbeId}
use ttl.Probe.Response.{ParsedResponse}
use ttl.State.Session.{
  Session, ProbeEvent, Clock, late_reply, record_event, under_write_guard, offset_ms,
}
use ttl.Trace.Pending.{PendingProbe, PendingMap}
use ttl.Trace.Receiver.{derive_flow_hint, remove_pending_by_flow_hint}
use ttl.Trace.Receiver.Apply.{
  BatchedResponse, ReceiverConfig, is_frag_needed, apply_response, record_pending_timeout,
}

-- The fallback: the first target whose pending probe the response can be matched to.
unfoldable pub remove_from_targets :
    List IpAddr → PendingMap → ProbeId → Option ℕ → Bool → Option PendingProbe × PendingMap
remove_from_targets [] pending probe_id flow_hint is_pmtud = (none, pending)
remove_from_targets (target ∷ targets) pending probe_id flow_hint is_pmtud =
    let r = remove_pending_by_flow_hint pending probe_id target flow_hint is_pmtud in
    let rest = remove_from_targets targets r.1 probe_id flow_hint is_pmtud in
    elim r.0 [ some probe ↦ r | none ↦ rest ]

-- The direct lookup, where an ICMP error quotes the destination.
abbrev pub by_destination :
    Option IpAddr → PendingMap → ProbeId → Option ℕ → Bool → Option PendingProbe × PendingMap
by_destination none pending probe_id flow_hint is_pmtud = (none, pending)
by_destination (some dest) pending probe_id flow_hint is_pmtud =
    remove_pending_by_flow_hint pending probe_id dest flow_hint is_pmtud

unfoldable pub find_probe :
    List IpAddr → PendingMap → ParsedResponse → Option ℕ → Option PendingProbe × PendingMap
unfolding remove_from_targets
find_probe targets pending parsed flow_hint =
    let is_pmtud = parsed.is_pmtud || is_frag_needed parsed.response_type in
    let first = by_destination parsed.original_dest pending parsed.probe_id flow_hint is_pmtud in
    let rest = remove_from_targets targets first.1 parsed.probe_id flow_hint is_pmtud in
    elim first.0 [ some probe ↦ first | none ↦ rest ]

abbrev pub batched : ℕ → Option ℕ → ParsedResponse → PendingProbe → BatchedResponse
batched now response_ttl parsed probe = record {
  probe_id = parsed.probe_id;
  responder = parsed.responder;
  rtt = now - probe.sent_at;
  mpls_labels = parsed.mpls_labels;
  interface_info = parsed.interface_info;
  response_type = parsed.response_type;
  target = probe.target;
  flow_id = probe.flow_id;
  original_src_port = probe.original_src_port;
  returned_src_port = parsed.src_port;
  packet_size = probe.packet_size;
  reported_mtu = parsed.mtu;
  response_ttl = response_ttl;
  quoted_ttl = parsed.quoted_ttl;
}

abbrev pub late_event : ℕ → Option ℕ → ParsedResponse → ProbeEvent
late_event offset_ms flow_hint parsed = record {
  offset_ms = offset_ms;
  ttl = parsed.probe_id.ttl;
  seq = parsed.probe_id.seq;
  flow_id = Option.get_or flow_hint 0;
  outcome = late_reply parsed.responder 0;
}

abbrev pub expired : ℕ → ℕ → PendingProbe → Bool
expired timeout now probe = ltb timeout (now - probe.sent_at)

-- The probes that are taken out of the map as timed out, and those that stay.
pub sweep : ℕ → ℕ → PendingMap → PendingMap × PendingMap
sweep timeout now pending =
    (keep (λ e. expired timeout now e.1) pending, keep (λ e. not (expired timeout now e.1)) pending)

module _ (f64 : Float) where
  abbrev pub SessionMap : Type 0
  SessionMap = List (IpAddr × Session f64)

  -- What a packet that was understood does: a response for the batch, or the event of a late one.
  unfoldable pub receive :
      ReceiverConfig
      → Clock
      → Option ℕ
      → List IpAddr
      → ParsedResponse
      → PendingMap × SessionMap
      → Option BatchedResponse × PendingMap × SessionMap
  unfolding find_probe
  receive config clock response_ttl targets parsed (pending, sessions) =
      let flow_hint = derive_flow_hint config.src_port_base config.num_flows parsed.src_port in
      let found = find_probe targets pending parsed flow_hint in
      elim found.0 [
        | some probe ↦ (some (batched clock.instant response_ttl parsed probe), found.1, sessions)
        | none ↦ elim parsed.original_dest [
          | none ↦ (none, found.1, sessions)
          | some target ↦ (
            none,
            found.1,
            adjust target
                (under_write_guard f64
                  (λ s. record_event f64 (late_event (offset_ms f64 clock s) flow_hint parsed) s))
                sessions,
          )
        ]
      ]

  -- The batch, in order; each response with the time at which it is applied.
  unfoldable pub apply_batch :
      ReceiverConfig → List (Clock × BatchedResponse) → SessionMap → SessionMap
  apply_batch config [] sessions = sessions
  apply_batch config ((clock, resp) ∷ batch) sessions =
      apply_batch config batch
        (adjust resp.target (under_write_guard f64 (apply_response f64 config clock resp)) sessions)

  -- `clocks` gives the times at which the entries are recorded, in their order.
  pub record_pending_timeouts : Bool → Bool → (ℕ → Clock) → PendingMap → SessionMap → SessionMap
  record_pending_timeouts record_events update_pmtud clocks [] sessions = sessions
  record_pending_timeouts record_events update_pmtud clocks ((key, probe) ∷ more) sessions =
      record_pending_timeouts record_events update_pmtud (λ i. clocks (suc i)) more
        (adjust key.target
          (under_write_guard f64
            (record_pending_timeout f64 record_events update_pmtud (clocks 0) key probe))
          sessions)

  -- The end of a round: what has waited too long is recorded as timed out.
  unfoldable pub clean_up :
      ReceiverConfig → ℕ → (ℕ → Clock) → PendingMap × SessionMap → PendingMap × SessionMap
  unfolding sweep record_pending_timeouts
  clean_up config now clocks (pending, sessions) =
      let swept = sweep config.timeout now pending in
      (swept.1, record_pending_timeouts true true clocks swept.0 sessions)

  -- The end of the run: all that still waits.
  unfoldable pub flush_pending_as_timeouts :
      (ℕ → Clock) → PendingMap × SessionMap → PendingMap × SessionMap
  unfolding record_pending_timeouts
  flush_pending_as_timeouts clocks (pending, sessions) =
      ([], record_pending_timeouts false false clocks pending sessions)
