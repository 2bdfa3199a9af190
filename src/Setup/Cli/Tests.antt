-- ===== src/Setup/Cli/Tests.antt =====
-- The theorem on the arguments, applied to the arguments of a test of cli.rs.
use ttl.Base.{ℕ, ◌≡◌, refl, true, false, none, some, [], ◌∷◌, ◌*◌}
use ttl.Base.Net.{v6}
use ttl.Base.Float.{thousandths}
use ttl.Setup.Config.{Config}
use ttl.Setup.Cli.{
  ArgsError, Platform, Args, accepted, rejected, refuse, check_ranges, validate, from_args,
}
use ttl.Setup.Cli.Safe.{IsSafe}
use ttl.Setup.Cli.Accepted.{validate-from_args}

-- A system with one interface, on which an address is a percent-free text.
abbrev platform : Platform ℕ
platform = record {
  is_finite = λ x. true;
  to_duration = λ x. some (x * 1000000);
  parse_ip = λ s. some (v6 1);
  parse_socket_addr = λ s. none;
  if_nametoindex = λ s. 3;
}

-- Four flows over UDP, from the link-local address of the interface e.
abbrev args : Args thousandths thousandths platform
args = record {
  targets = [];
  count = 0;
  interval = 1000;
  max_ttl = 30;
  protocol = 85 ∷ 68 ∷ 80 ∷ [];
  port = none;
  port_fixed = false;
  flows = 4;
  src_port = 50000;
  timeout = 3000;
  ipv4 = false;
  ipv6 = false;
  no_dns = false;
  no_asn = false;
  no_geo = false;
  no_ix = false;
  no_tui = false;
  json = false;
  csv = false;
  report = false;
  replay = none;
  speed = 10000;
  diff = none;
  stream_json = false;
  daemon = false;
  prometheus = none;
  interface = none;
  recv_any = false;
  dscp = none;
  size = none;
  pmtud = false;
  jumbo = false;
  rate = none;
  source_ip = some (58 ∷ 58 ∷ 49 ∷ 37 ∷ 101 ∷ []);
  source_ip_scope_id = none;
}

arguments_pass :
    validate thousandths thousandths platform args
    ≡ accepted (record args { source_ip_scope_id = some 3 })
unfolding validate check_ranges refuse
arguments_pass = refl

-- The last source port would be 65536.
ports_fail :
    validate thousandths thousandths platform (record args { src_port = 65533 })
    ≡ rejected ArgsError.source_ports
unfolding validate check_ranges refuse
ports_fail = refl

validate-from_args_example :
    (c : Config) × (from_args thousandths thousandths platform
        (record args { source_ip_scope_id = some 3 })
      ≡ some c)
    × IsSafe c
validate-from_args_example =
    validate-from_args thousandths thousandths platform args
      (record args { source_ip_scope_id = some 3 }) arguments_pass
