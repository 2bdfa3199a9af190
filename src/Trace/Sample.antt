-- ===== src/Trace/Sample.antt =====
-- A small receiver, an answer and two steps of a run that the tests share.
use ttl.Base.{ℕ, false, none, some, Option, List, [], ◌∷◌, refl}
use ttl.Base.Net.{v4}
use ttl.Base.Float.{thousandths}
use ttl.Probe.Id.{ProbeId}
use ttl.Probe.Response.{echo_reply}
use ttl.State.Session.{Clock}
use ttl.Trace.Pending.{PendingProbe, PendingKey}
use ttl.Trace.Receiver.{key_for}
use ttl.Trace.Receiver.Apply.{BatchedResponse, ReceiverConfig}
use ttl.Trace.Receiver.Live
use ttl.Trace.Receiver.Live.{LiveStep, responded}

abbrev pub probe_id : ProbeId
probe_id = record { ttl = 7; seq = 1 }

abbrev pub sent : ℕ → PendingProbe
sent flow_id = record {
  sent_at = 100;
  target = v4 8;
  flow_id = flow_id;
  original_src_port = some 50002;
  packet_size = none;
}

-- A receiver for the flow of the sample session, and an answer of its target at the second hop.
abbrev pub one_flow : ReceiverConfig
one_flow = record { timeout = 3000000000; ipv6 = false; src_port_base = 50000; num_flows = 1 }

abbrev pub at_10 : Clock
at_10 = record { instant = 10; now = 10 }

abbrev pub answer : Option ℕ → BatchedResponse
answer packet_size = record {
  probe_id = record { ttl = 2; seq = 1 };
  responder = v4 8;
  rtt = 20000;
  mpls_labels = none;
  interface_info = none;
  response_type = echo_reply;
  target = v4 8;
  flow_id = 0;
  original_src_port = some 50000;
  returned_src_port = some 50000;
  packet_size = packet_size;
  reported_mtu = none;
  response_ttl = some 63;
  quoted_ttl = none;
}

abbrev pub lost : PendingProbe
lost = record (sent 0) { flow_id = 0 }

abbrev pub two_steps : List (LiveStep thousandths)
two_steps =
    responded at_10 (answer none) refl
    ∷ Live.expired at_10 (key_for probe_id 0 (v4 8) false) lost refl
    ∷ []

-- What waits at the end: a probe of the second hop.
abbrev pub still_waiting : List (Clock × PendingKey × PendingProbe)
still_waiting = (at_10, key_for (record { ttl = 2; seq = 5 }) 0 (v4 8) false, lost) ∷ []
