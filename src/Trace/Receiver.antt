-- ===== src/Trace/Receiver.antt =====
-- trace/receiver.rs: which flow a response belongs to, and which pending probe it answers.
pub mod Hints
pub mod Matching
pub mod Apply
pub mod Loop
pub mod Found
pub mod Steps
pub mod Live
pub mod Replayed
use ttl.Base.{
  ℕ, ◌+◌, ◌-◌, ◌%◌, Bool, true, false, ◌&&◌, Option, none, some, List, [], ◌∷◌, ltb, leb, ◌==◌,
  length, get_or, if◌then◌else◌,
}
use ttl.Base.Words.{add16}
use ttl.Base.Net.{IpAddr, ip_eq}
use ttl.Base.Removal.{remove}
use ttl.Probe.Id.{ProbeId, id_eq}
use ttl.Trace.Pending.{PendingProbe, PendingKey, PendingMap, same_kind, pending_key}

-- `src_port_base + num_flows` is a sum of u16, and the hint is cut to a u8.
pub derive_flow_hint : ℕ → ℕ → Option ℕ → Option ℕ
derive_flow_hint src_port_base num_flows (some port) =
    if leb src_port_base port && ltb port (add16 src_port_base num_flows)
    then some ((port - src_port_base) % 256)
    else none
derive_flow_hint src_port_base num_flows none = if num_flows == 1 then some 0 else none

abbrev pub key_for : ProbeId → ℕ → IpAddr → Bool → PendingKey
key_for probe_id flow_id target is_pmtud = record {
  probe_id = probe_id;
  flow_id = flow_id;
  target = target;
  is_pmtud = is_pmtud;
}

-- The first of two keys that is there is removed.
unfoldable pub remove_either :
    PendingKey → PendingKey → PendingMap → Option PendingProbe × PendingMap
remove_either first second pending =
    let r = remove first pending in elim r.0 [ some probe ↦ r | none ↦ remove second r.1 ]

-- The flows of the keys of a probe and target, of one kind: `normal_flows` and `pmtud_flows`.
unfoldable pub flows_of : Bool → ProbeId → IpAddr → PendingMap → List ℕ
flows_of is_pmtud probe_id target [] = []
flows_of is_pmtud probe_id target ((k, v) ∷ pending) =
    let rest = flows_of is_pmtud probe_id target pending in
    if id_eq k.probe_id probe_id && ip_eq k.target target && same_kind k.is_pmtud is_pmtud
    then k.flow_id ∷ rest
    else rest

-- Only a single candidate is removed when the flow is unknown.
unfoldable pub remove_unambiguous :
    PendingMap → ProbeId → IpAddr → Bool → Option PendingProbe × PendingMap
remove_unambiguous pending probe_id target is_pmtud_response =
    let normal_flows = flows_of false probe_id target pending in
    let pmtud_flows = flows_of true probe_id target pending in
    if is_pmtud_response && length pmtud_flows == 1
    then remove (key_for probe_id (get_or pmtud_flows 0 0) target true) pending
    else if length normal_flows == 1
    then remove (key_for probe_id (get_or normal_flows 0 0) target false) pending
    else if length normal_flows == 0 && length pmtud_flows == 1
    then remove (key_for probe_id (get_or pmtud_flows 0 0) target true) pending
    else (none, pending)

unfoldable pub remove_pending_by_flow_hint :
    PendingMap → ProbeId → IpAddr → Option ℕ → Bool → Option PendingProbe × PendingMap
unfolding remove_either remove_unambiguous
remove_pending_by_flow_hint pending probe_id target (some flow_id) is_pmtud_response =
    let pmtud = key_for probe_id flow_id target true in
    let normal = key_for probe_id flow_id target false in
    if is_pmtud_response
    then remove_either pmtud normal pending
    else remove_either normal pmtud pending
remove_pending_by_flow_hint pending probe_id target none is_pmtud_response =
    remove_unambiguous pending probe_id target is_pmtud_response
