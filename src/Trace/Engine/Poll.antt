-- ===== src/Trace/Engine/Poll.antt =====
-- trace/engine.rs, `poll_ipv6_echo_reply`: on Linux the engine itself reads the Echo Replies of an IPv6
-- run from the socket that it sends with.
use ttl.Base.{
  ℕ, ◌-◌, ◌≡◌, refl, ◌∙◌, Bool, true, false, not, Option, none, some, List, [], ◌∷◌, length, take,
  is_some, Bool-cases, inl, inr, arith, if◌then◌else◌,
}
use ttl.Base.Net.{IpAddr, ip_eq}
use ttl.Base.Float.{Float}
use ttl.Base.Removal.{remove}
use ttl.Probe.Id.{ProbeId}
use ttl.Probe.Response.{ParsedResponse}
use ttl.State.Pmtud.{record_success}
use ttl.State.Pmtud.Bounds.{record_success-IsValid}
use ttl.State.Hop.{
  Hop, record_response_ttl, record_flow_response, record_response_detecting_flaps,
  record_response_detecting_flaps_with_extensions, record_response_with_extensions,
}
use ttl.State.Session.{Session, with_hop, reach}
use ttl.State.Session.Frame.{length-with_hop}
use ttl.State.Session.Invariant.{IsTtl, reach-IsWellFormed}
use ttl.Trace.Pending.{PendingProbe, PendingKey, PendingMap, pending_key, key_eq_iff}
use ttl.Trace.Receiver.{key_for, remove_either}
use ttl.Trace.Receiver.Matching.{of_either}
use ttl.Trace.Receiver.Apply.{is_echo_reply, change_pmtud, on_current_size}
use ttl.Trace.Receiver.Steps.{IsSound, with_hop-IsSound, change_pmtud-IsSound}

-- What was read of one datagram: the time, its time to live, and what it was understood as.
pub record Datagram : Type 0 where
  pub now : ℕ
  pub response_ttl : Option ℕ
  pub parsed : Option ParsedResponse

-- The probes of the map were sent with times to live of a session of `n` hops.
abbrev pub AllInRange : ℕ → PendingMap → Type 0
AllInRange n [] = Unit
AllInRange n ((k, v) ∷ pending) = IsTtl n (some k.probe_id.ttl) × AllInRange n pending

remove-AllInRange :
    (n : ℕ) (k : PendingKey) (pending : PendingMap)
    → AllInRange n pending
    → AllInRange n (remove k pending).1
unfolding remove
remove-AllInRange n k [] a = a
remove-AllInRange n k ((j, v) ∷ pending) a = ground (arith, remove-AllInRange n k pending a.1, a.0)

remove-IsTtl :
    (n : ℕ) (k : PendingKey) (pending : PendingMap) (probe : PendingProbe)
    → AllInRange n pending
    → (remove k pending).0 ≡ some probe
    → IsTtl n (some k.probe_id.ttl)
unfolding remove
remove-IsTtl n k [] probe a e = absurd (let clash : none ≡ some probe = e in cc)
remove-IsTtl n k ((j, v) ∷ pending) probe a e =
    ground (arith, key_eq_iff j k, remove-IsTtl n k pending probe a.1, a.0)

-- What is left is in range, and so is a probe that was taken.
abbrev IsInRange : ℕ → ℕ → Option PendingProbe × PendingMap → Type 0
IsInRange n ttl r =
    AllInRange n r.1 × ((probe : PendingProbe) → r.0 ≡ some probe → IsTtl n (some ttl))

remove-IsInRange :
    (n : ℕ) (k : PendingKey) (pending : PendingMap)
    → AllInRange n pending
    → IsInRange n k.probe_id.ttl (remove k pending)
remove-IsInRange n k pending a =
    (remove-AllInRange n k pending a, λ probe e. remove-IsTtl n k pending probe a e)

remove_either-IsInRange :
    (n : ℕ) (id : ProbeId) (target : IpAddr) (pending : PendingMap)
    → AllInRange n pending
    → IsInRange n id.ttl
        (remove_either (key_for id 0 target false) (key_for id 0 target true) pending)
unfolding remove_either
remove_either-IsInRange n id target pending a =
    let first = remove-IsInRange n (key_for id 0 target false) pending a in
    of_either (IsInRange n id.ttl) _ _ _ first
      (λ absent. remove-IsInRange n (key_for id 0 target true) _ first.0)

module _ (f64 : Float) where
  abbrev pub poll_response_ttl : Option ℕ → Hop f64 → Hop f64
  poll_response_ttl none h = h
  poll_response_ttl (some response_ttl) h = record_response_ttl f64 response_ttl true h

  -- A matched Echo Reply at its hop.
  abbrev pub poll_hop : ℕ → Option ℕ → IpAddr → Hop f64 → Hop f64
  poll_hop rtt response_ttl responder h = poll_response_ttl response_ttl (
      record_flow_response f64 0 responder rtt
        (record_response_detecting_flaps f64 responder rtt none h))

  -- A matched Echo Reply: nothing is recorded as an event.
  pub poll_answer :
      IpAddr → ℕ → Option ℕ → ParsedResponse → PendingProbe → Session f64 → Session f64
  poll_answer target now response_ttl parsed probe s =
      let rtt = now - probe.sent_at in
      let ttl = parsed.probe_id.ttl in
      let counted : Session f64 =
        if is_some probe.packet_size
        then s
        else with_hop f64 ttl (poll_hop rtt response_ttl parsed.responder) s in
      change_pmtud f64 (on_current_size probe.packet_size record_success)
        (if ip_eq parsed.responder target then reach f64 ttl counted else counted)

  -- Only an Echo Reply to a pending probe of flow 0 is taken.
  abbrev pub poll_parsed :
      IpAddr
      → Datagram
      → Option ParsedResponse
      → PendingMap × Session f64
      → PendingMap × Session f64
  poll_parsed target d none w = w
  poll_parsed target d (some parsed) (pending, s) =
      let r =
        remove_either (key_for parsed.probe_id 0 target false)
          (key_for parsed.probe_id 0 target true) pending in
      if not (is_echo_reply parsed.response_type) then (pending, s) else elim r.0 [
        | none ↦ (r.1, s)
        | some probe ↦ (r.1, poll_answer target d.now d.response_ttl parsed probe s)
      ]

  pub poll_datagram : IpAddr → Datagram → PendingMap × Session f64 → PendingMap × Session f64
  poll_datagram target d w = poll_parsed target d d.parsed w

  abbrev pub poll_all : IpAddr → List Datagram → PendingMap × Session f64 → PendingMap × Session f64
  poll_all target [] w = w
  poll_all target (d ∷ ds) w = poll_all target ds (poll_datagram target d w)

  -- At most 256 datagrams at once.
  pub poll_ipv6_echo_reply :
      IpAddr → List Datagram → PendingMap × Session f64 → PendingMap × Session f64
  unfolding poll_datagram
  poll_ipv6_echo_reply target waiting w = poll_all target (take 256 waiting) w

  ttl-poll_hop :
      (rtt : ℕ) (response_ttl : Option ℕ) (responder : IpAddr) (h : Hop f64)
      → (poll_hop rtt response_ttl responder h).ttl ≡ h.ttl
  unfolding record_response_ttl record_flow_response record_response_detecting_flaps
      record_response_detecting_flaps_with_extensions record_response_with_extensions
  ttl-poll_hop rtt none responder h = refl
  ttl-poll_hop rtt (some response_ttl) responder h = refl

  -- A session that is sound and has `n` hops.
  abbrev HasSound : ℕ → Session f64 → Type 0
  HasSound n s = IsSound f64 s × (length s.hops ≡ n)

  poll_answer-HasSound :
      (n : ℕ) (target : IpAddr) (now : ℕ) (response_ttl : Option ℕ) (parsed : ParsedResponse)
      (probe : PendingProbe) (s : Session f64)
      → IsTtl n (some parsed.probe_id.ttl)
      → HasSound n s
      → HasSound n (poll_answer target now response_ttl parsed probe s)
  unfolding poll_answer reach
  poll_answer-HasSound n target now response_ttl parsed probe s near sound =
      let arrived = reached (ip_eq parsed.responder target) in
      (
        change_pmtud-IsSound f64 probe.packet_size record_success _ record_success-IsValid
            arrived.0,
        arrived.1,
      )
    where
      ttl : ℕ
      ttl = parsed.probe_id.ttl

      f : Hop f64 → Hop f64
      f = poll_hop (now - probe.sent_at) response_ttl parsed.responder

      counted : (b : Bool) → HasSound n (if b then s else with_hop f64 ttl f s)
      counted true = sound
      counted false = (
        with_hop-IsSound f64 ttl f s
            (ttl-poll_hop (now - probe.sent_at) response_ttl parsed.responder) sound.0,
        length-with_hop f64 ttl f s ∙ sound.1,
      )

      kept : Session f64
      kept = if is_some probe.packet_size then s else with_hop f64 ttl f s

      reached : (b : Bool) → HasSound n (if b then reach f64 ttl kept else kept)
      reached true =
          let ((w, v), l) = counted (is_some probe.packet_size) in
          ((reach-IsWellFormed f64 ttl kept (rw l near) w, v), l)
      reached false = counted (is_some probe.packet_size)

  poll_datagram-HasSound :
      (n : ℕ) (target : IpAddr) (d : Datagram) (w : PendingMap × Session f64)
      → AllInRange n w.0 × HasSound n w.1
      → let w' = poll_datagram target d w in AllInRange n w'.0 × HasSound n w'.1
  unfolding poll_datagram
  poll_datagram-HasSound n target d (pending, s) (near, sound) = read d.parsed
    where
      answered :
          (parsed : ParsedResponse) (r : Option PendingProbe × PendingMap) (o : Option PendingProbe)
          → r.0 ≡ o
          → IsInRange n parsed.probe_id.ttl r
          → let w' : PendingMap × Session f64 = elim o [
            | none ↦ (r.1, s)
            | some probe ↦ (r.1, poll_answer target d.now d.response_ttl parsed probe s)
          ] in
            AllInRange n w'.0 × HasSound n w'.1
      answered parsed r none e (left, found) = (left, sound)
      answered parsed r (some probe) e (left, found) = (
        left,
        poll_answer-HasSound n target d.now d.response_ttl parsed probe s (found probe e) sound,
      )

      read :
          (o : Option ParsedResponse)
          → let w' = poll_parsed target d o (pending, s) in AllInRange n w'.0 × HasSound n w'.1
      read none = (near, sound)
      read (some parsed) = elim (Bool-cases (not (is_echo_reply parsed.response_type))) [
        | inl other ↦ rw other (near, sound)
        | inr reply ↦ rw reply (
            answered parsed _ _ refl
              (remove_either-IsInRange n parsed.probe_id target pending near))
      ]

  poll_all-HasSound :
      (n : ℕ) (target : IpAddr) (ds : List Datagram) (w : PendingMap × Session f64)
      → AllInRange n w.0 × HasSound n w.1
      → let w' = poll_all target ds w in AllInRange n w'.0 × HasSound n w'.1
  poll_all-HasSound n target [] w h = h
  poll_all-HasSound n target (d ∷ ds) w h =
      poll_all-HasSound n target ds (poll_datagram target d w)
        (poll_datagram-HasSound n target d w h)

  -- Whatever is read, the replies to probes that were sent with the session's times to live keep it
  -- sound.
  pub poll_ipv6_echo_reply-IsSound :
      (target : IpAddr) (waiting : List Datagram) (pending : PendingMap) (s : Session f64)
      → AllInRange (length s.hops) pending
      → IsSound f64 s
      → IsSound f64 (poll_ipv6_echo_reply target waiting (pending, s)).1
  unfolding poll_ipv6_echo_reply
  poll_ipv6_echo_reply-IsSound target waiting pending s near sound =
      (poll_all-HasSound (length s.hops) target (take 256 waiting) (pending, s)
        (near, (sound, refl))).1.0
