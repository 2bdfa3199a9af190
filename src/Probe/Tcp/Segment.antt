-- ===== src/Probe/Tcp/Segment.antt =====
-- probe/tcp.rs: a SYN probe gives its identity and source port back.
use ttl.Base.{ℕ, ◌+◌, ◌<◌, ◌≡◌, some, length, get_or, arith}
use ttl.Base.Bytes.{be16}
use ttl.Base.Net.{IpAddr}
use ttl.Probe.Id.{ProbeId}
use ttl.Probe.Id.Sequence.{to_sequence-eq, from_sequence-to_sequence}
use ttl.Probe.Udp.Payload.{length-pattern_from}
use ttl.Probe.Tcp.{build_tcp_syn_sized, extract_probe_id_from_tcp}

-- Reading the segment built for a probe whose identity is two bytes gives that identity back, its
-- first two bytes are the source port, and its length is 20 plus the payload's: for every pair of
-- addresses and every payload size.
pub extract-build_tcp_syn_sized :
    (id : ProbeId) (src_port dst_port : ℕ) (src dst : IpAddr) (size : ℕ)
    → id.ttl < 256
    → id.seq < 256
    → let packet = build_tcp_syn_sized id src_port dst_port src dst size in
      (extract_probe_id_from_tcp packet ≡ some id)
      × (be16 (get_or packet 0 0) (get_or packet 1 0) ≡ src_port)
      × (length packet ≡ 20 + size)
unfolding extract_probe_id_from_tcp build_tcp_syn_sized
extract-build_tcp_syn_sized id src_port dst_port src dst size ht hs =
    ground (
      arith,
      to_sequence-eq id ht hs,
      from_sequence-to_sequence id ht hs,
      length-pattern_from size 0,
    )
