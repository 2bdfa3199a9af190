-- ===== src/Setup/Config.antt =====
-- config.rs: `Config`, what the rest of the program is told of a run. Durations are nanoseconds.
use ttl.Base.{ℕ, Bool, Option}
use ttl.Base.Net.{IpAddr}
use ttl.Base.Texts.{Text}

pub data ProbeProtocol : Type 0 where
  auto icmp udp tcp : ProbeProtocol

pub record Config : Type 0 where
  pub count : Option ℕ
  pub interval : ℕ
  pub max_ttl : ℕ
  pub timeout : ℕ
  pub protocol : ProbeProtocol
  pub port : Option ℕ
  pub port_fixed : Bool
  pub flows : ℕ
  pub src_port_base : ℕ
  pub dns_enabled : Bool
  pub asn_enabled : Bool
  pub geo_enabled : Bool
  pub ix_enabled : Bool
  pub interface : Option Text
  pub recv_any : Bool
  pub dscp : Option ℕ
  pub packet_size : Option ℕ
  pub pmtud : Bool
  pub jumbo : Bool
  pub rate : Option ℕ
  pub source_ip : Option IpAddr
  pub source_ip_scope_id : Option ℕ
