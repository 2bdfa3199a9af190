-- ===== src/State/Session/Sample.antt =====
-- A small configuration, target and session that the tests share.
use ttl.Base.{none, true, false}
use ttl.Base.Net.{v4}
use ttl.Base.Float.{thousandths}
use ttl.Setup.Config.{Config, udp}
use ttl.State.Session
use ttl.State.Session.{Session, Target, new_target}

abbrev pub two_hops : Config
two_hops = record {
  count = none;
  interval = 1000000000;
  max_ttl = 2;
  timeout = 3000000000;
  protocol = udp;
  port = none;
  port_fixed = false;
  flows = 1;
  src_port_base = 50000;
  dns_enabled = true;
  asn_enabled = true;
  geo_enabled = true;
  ix_enabled = true;
  interface = none;
  recv_any = false;
  dscp = none;
  packet_size = none;
  pmtud = true;
  jumbo = false;
  rate = none;
  source_ip = none;
  source_ip_scope_id = none;
}

abbrev pub host : Target
host = new_target "host" (v4 8)

abbrev pub begun : Session thousandths
begun = Session.new thousandths host two_hops 5 7
