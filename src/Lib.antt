-- ===== src/Lib.antt =====
-- ttl, a traceroute with a live view, sends probes of increasing time to live, matches the ICMP
-- responses to them, and keeps statistics of every hop. This library models the packets sent, the
-- matching of the responses, the session with the state kept of each hop, the changes that the
-- sending engine and the receiver make to it, and its replay from a record of events in the terminal;
-- the arguments of a run, the settings, and the lookup of internet exchanges. Paths are those of the
-- repository, below src/.
--
-- Base holds what the modules share: tests on numbers, lists, bytes, words of fixed width, IP
-- addresses, hash maps as association lists (Base.Assoc), strings as lists of characters
-- (Base.Texts), and floats as a parameter (Base.Float).
--
-- Setup.Config is the record of config.rs that a session keeps of its run; Setup.Cli is `validate` of
-- cli.rs, and the making of that record from the arguments.
--
-- Probe is about probe/, and the types of state/session.rs that its results are made of.
--   Id          `ProbeId`: the time to live and the sequence number that identify a probe.
--   Checksum    `internet_checksum` (probe/rawip.rs), `validate_icmp_checksum` (probe/correlate.rs).
--   Udp, Tcp    the builders of probe/udp.rs and probe/tcp.rs, and what reads a quoted probe.
--   RawIp       the packets that probe/rawip.rs builds by hand: IPv4 headers and UDP datagrams.
--   Echo        `build_echo_request` (probe/icmp.rs).
--   Outcome     what a parser does: a value, `None`, or a panic. Reading a byte or a slice outside
--               the packet is a panic, as it is in the source.
--   Mpls, Extensions   `parse_icmp_extensions`: label stacks and interface information.
--   Response    `ParsedResponse`, the Echo Reply, and the library code that the parsers call.
--   Quoted      the four parsers of an ICMP error's payload, and the walk over extension headers.
--   Correlate   `parse_icmp_response` and its dispatch.
--
-- State is about state/session.rs and state/ratelimit.rs.
--   Pmtud       `PmtudState`: the binary search for the path MTU.
--   Nat         `NatInfo`, `Hop::record_nat_check`.
--   TtlManip    `TtlManipInfo`: the detection of rewritten times to live.
--   Asymmetry   `AsymmetryInfo`, `estimate_return_hops`.
--   Flow        `FlowPathStats`: the responders of one flow.
--   Responder   `ResponderStats`: the times of one responder.
--   Hop         `Hop`, which holds all of the above for one time to live. Hop.View is the part of a
--               hop that a replay gives back, and what an answer and a timeout do to it
--               (not the primary responder, which depends on the order of a hash map's entries);
--               Hop.Ecmp the classification of load balancing.
--   Session     `Session`: the hops by time to live, the events, the search for the path MTU; its
--               replay, its reset, and what the release of a write guard does.
--   RateLimit   `analyze_rate_limiting` (state/ratelimit.rs), which changes the hops of a session.
--
-- Trace is about trace/, where responses meet the probes that wait for them.
--   Pending     trace/pending.rs: the map of pending probes, its lock left out.
--   Receiver    trace/receiver.rs: `derive_flow_hint`, `remove_pending_by_flow_hint`. The response
--               that Probe.Correlate parses gives the source port, identity and target used here.
--               Receiver.Apply is what one response and one timeout do to a session of State.Session;
--               Receiver.Loop the steps of `run_blocking` on the pending probes and the sessions.
--   Engine      trace/engine.rs: what the sending side does to the session. Engine.Poll is
--               `poll_ipv6_echo_reply`, by which it reads answers itself on Linux; Engine.Reachable
--               has the changes of a session in a live run as one step relation.
--
-- Export.Diff is `diff_sessions` of export/diff.rs, the comparison of two saved sessions hop by hop.
--
-- Lookup.Ix is the table of prefixes of lookup/ix.rs: its tries in their arenas (Ix.Paths, Ix.Grow, Ix.Insert,
-- Ix.Search), and the table against a scan of the networks (Ix.Table, Ix.Match, Ix.Scan, Ix.Cached).
--
-- Tui is about tui/.
--   Replay      `ReplayState` of tui/app.rs: the tick, pause, seek and speed, and the key r, on
--               the sessions of State.Session. Replay.Recorded joins it to the runs of Trace.Receiver.
--   Settings    `SettingsState` of tui/views/settings.rs: the editing of the API key, which is a text
--               with a cursor in its UTF-8 bytes, and the selections.
--
-- Numbers are natural numbers; additions on u8, u16, u32 and u64 wrap as in a release build
-- (Base.Words). A method that changes its receiver is a function from the old state to the new one.
-- Loops whose end is not plain from a list run on fuel: the folding of a checksum on 3 (two rounds
-- are enough for 32 bits), the walk over extension headers and the loop over extension objects on
-- the length of the packet (each step takes at least 8 or 4 bytes). Running out of fuel counts as a
-- panic, so the theorems that say there is none say that the fuel is enough.
--
-- Not modelled: the sockets, the clocks and timers, and the loops around them (each step is given
-- what it reads of them), the drawing and most keys of the terminal interface, the exports as text,
-- the clients and caches of the lookup services, the start of the program, and the preferences on
-- disk. The packet types of the pnet crate with its ICMP checksum, the decoding of text, the
-- arithmetic of floats, the parser of networks (Lookup.Ix) and what Setup.Cli.Platform names are
-- parameters. One theorem assumes of the packet type that it reads an IPv4 header's fields from their
-- places (RawIp.Quoted.ReadsHeaders), and one of floats that the difference of a number and itself is
-- not 5 or more (Diff.Same.IsCancelling); nothing else is assumed of any of them.
pub mod Base
pub mod Setup
pub mod Probe
pub mod State
pub mod Trace
pub mod Export
pub mod Lookup
pub mod Tui
