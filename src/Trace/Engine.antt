-- ===== src/Trace/Engine.antt =====
-- trace/engine.rs: what the probing engine does to its session: the count of a probe that was sent,
-- and the path MTU search from the sending side. Sockets and timers are left out.
pub mod Poll
pub mod Reachable
use ttl.Base.{ℕ, ◌+◌, ◌-◌, Bool, true, false, Option, none, some, if◌then◌else◌}
use ttl.Base.Float.{Float}
use ttl.State.Pmtud.{
  PmtudPhase, waiting_for_destination, searching, complete, PmtudState, start_search, is_converged,
  next_probe_size,
}
use ttl.State.Hop.{Hop, record_sent, record_flow_sent}
use ttl.State.Session.{Session, count_sent, with_hop}

-- The state of a search once probes may be sent, and the time to live to send them with.
abbrev pub ready_search : ℕ → PmtudState → Option ℕ × PmtudState
ready_search dest_ttl p = elim p.phase [
  | waiting_for_destination ↦ (some dest_ttl, start_search p)
  | searching ↦ (some dest_ttl, p)
  | complete ↦ (none, p)
]

-- The size of the next probe of a search under way.
abbrev pub probe_size : PmtudState → Option ℕ
probe_size p = elim p.phase [
  | waiting_for_destination ↦ none
  | searching ↦ some p.current_size
  | complete ↦ none
]

-- A probe of `packet_size` bytes was too large for the local interface (EMSGSIZE).
pub clamp : ℕ → PmtudState → PmtudState
clamp packet_size p =
    let clamped : PmtudState = record p {
      max_size = packet_size - 1;
      successes = 0;
      failures = 0;
    } in
    if is_converged clamped
    then record clamped { discovered_mtu = some clamped.min_size; phase = complete }
    else record clamped { current_size = next_probe_size clamped }

-- A search that is given up.
abbrev pub give_up : PmtudState → PmtudState
give_up p = record p { phase = complete; discovered_mtu = none }

abbrev pub on_search : (PmtudState → PmtudState) → Option PmtudState → Option PmtudState
on_search f none = none
on_search f (some p) = some (f p)

module _ (f64 : Float) where
  -- A probe of the trace was sent.
  pub record_probe_sent : ℕ → ℕ → Session f64 → Session f64
  record_probe_sent ttl flow_id s =
      with_hop f64 ttl (λ h. record_flow_sent f64 flow_id (record_sent f64 h)) (count_sent f64 s)

  abbrev pub ready_session : ℕ → Option PmtudState → Session f64 → Option ℕ × Session f64
  ready_session dest_ttl none s = (none, s)
  ready_session dest_ttl (some p) s =
      let r = ready_search dest_ttl p in (r.0, record s { pmtud = some r.1 })

  abbrev pub ready_at : Option ℕ → Session f64 → Option ℕ × Session f64
  ready_at none s = (none, s)
  ready_at (some dest_ttl) s = ready_session dest_ttl s.pmtud s

  pub check_pmtud_ready : Session f64 → Option ℕ × Session f64
  check_pmtud_ready s = if s.config.pmtud then ready_at s.dest_ttl s else (none, s)

  pub get_pmtud_probe_size : Session f64 → Option ℕ
  get_pmtud_probe_size s = elim s.pmtud [ none ↦ none | some p ↦ probe_size p ]

  pub handle_pmtud_df_error : Bool → Session f64 → Session f64
  handle_pmtud_df_error unsupported_ipv4_df s =
      if unsupported_ipv4_df then record s { pmtud = on_search give_up s.pmtud } else s

  -- `send_pmtud_probe_icmp` where the probe could not be sent for its size.
  pub clamp_pmtud : ℕ → Session f64 → Session f64
  unfolding clamp
  clamp_pmtud packet_size s = record s { pmtud = on_search (clamp packet_size) s.pmtud }
