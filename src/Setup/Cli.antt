-- ===== src/Setup/Cli.antt =====
-- cli.rs and config.rs: `Args::validate`, and the configuration made of valid arguments. The text of
-- the errors is left out: an error says which check failed. The arguments that only the interface
-- and the exports read are left out too. The target system is Linux.
mod Safe
mod Accepted
mod Tests
use ttl.Base.{
  ℕ, zero, suc, ◌+◌, ◌-◌, Bool, true, false, not, ◌&&◌, ◌||◌, Option, none, some, List, [], ◌∷◌,
  ◌++◌, ltb, leb, ◌==◌, is_some, ◌>>=◌, if◌then◌else◌,
}
use ttl.Base.Net.{IpAddr}
use ttl.Base.Float.{Float}
use ttl.Base.Texts.{Text, text_eq, to_lowercase, byte_len, split_once, has_char, parse_u32}
use ttl.Setup.Config.{Config, ProbeProtocol, auto, icmp, udp, tcp}

-- "auto", "icmp", "udp" and "tcp".
abbrev pub auto_text : Text
auto_text = 97 ∷ 117 ∷ 116 ∷ 111 ∷ []

abbrev pub icmp_text : Text
icmp_text = 105 ∷ 99 ∷ 109 ∷ 112 ∷ []

abbrev pub udp_text : Text
udp_text = 117 ∷ 100 ∷ 112 ∷ []

abbrev pub tcp_text : Text
tcp_text = 116 ∷ 99 ∷ 112 ∷ []

pub data ArgsError : Type 0 where
  no_targets no_count both_families unknown_protocol not_positive too_long ttl_zero ttl_too_large
        flows_zero too_many_flows source_ports destination_ports sequence_wrap speed_range
        prometheus_address interface_empty interface_too_long source_address zone_name unknown_zone
        pmtud_without_probes jumbo_without_probes :
      ArgsError

-- What the standard library and the system do for it: `f64::is_finite`, `Duration::try_from_secs_f64`
-- in nanoseconds, the parsers of addresses, and `if_nametoindex`.
pub record Platform (F64 : Type 0) : Type 0 where
  pub is_finite : F64 → Bool
  pub to_duration : F64 → Option ℕ
  pub parse_ip : Text → Option IpAddr
  pub parse_socket_addr : Text → Option (IpAddr × ℕ)
  pub if_nametoindex : Text → ℕ

abbrev pub default_destination_port : Text → ℕ
default_destination_port protocol = if text_eq protocol tcp_text then 80 else 33434

abbrev pub is_empty : List Text → Bool
is_empty [] = true
is_empty (t ∷ ts) = false

abbrev pub is_known : Text → Bool
is_known p = text_eq p auto_text || text_eq p icmp_text || text_eq p udp_text || text_eq p tcp_text

abbrev pub uses_port : Text → Option ℕ → Bool
uses_port p port = text_eq p udp_text || text_eq p tcp_text || (text_eq p auto_text && is_some port)

abbrev pub or_port : Option ℕ → ℕ → ℕ
or_port none default = default
or_port (some port) default = port

abbrev pub protocol_of : Text → ProbeProtocol
protocol_of p =
    if text_eq p icmp_text
    then icmp
    else if text_eq p udp_text
    then udp
    else if text_eq p tcp_text
    then tcp
    else auto

abbrev pub default_port : ProbeProtocol → Option ℕ
default_port auto = none
default_port udp = some 33434
default_port tcp = some 80
default_port icmp = none

abbrev pub port_or : Option ℕ → Option ℕ → Option ℕ
port_or none other = other
port_or (some port) other = some port

module _ (f32 f64 : Float) (platform : Platform f64.F64) where
  open f64 use {F64, of_nat, literal, fmul, fle}
  open platform use {is_finite, to_duration, parse_ip, parse_socket_addr, if_nametoindex}

  pub record Args : Type 0 where
    pub targets : List Text
    pub count : ℕ
    pub interval : F64
    pub max_ttl : ℕ
    pub protocol : Text
    pub port : Option ℕ
    pub port_fixed : Bool
    pub flows : ℕ
    pub src_port : ℕ
    pub timeout : F64
    pub ipv4 : Bool
    pub ipv6 : Bool
    pub no_dns : Bool
    pub no_asn : Bool
    pub no_geo : Bool
    pub no_ix : Bool
    pub no_tui : Bool
    pub json : Bool
    pub csv : Bool
    pub report : Bool
    pub replay : Option Text
    pub speed : f32.F64
    pub diff : Option (List Text)
    pub stream_json : Bool
    pub daemon : Bool
    pub prometheus : Option Text
    pub interface : Option Text
    pub recv_any : Bool
    pub dscp : Option ℕ
    pub size : Option ℕ
    pub pmtud : Bool
    pub jumbo : Bool
    pub rate : Option ℕ
    pub source_ip : Option Text
    pub source_ip_scope_id : Option ℕ

  pub data Validated : Type 0 where
    rejected : ArgsError → Validated
    accepted : Args → Validated

  abbrev pub is_batch_mode : Args → Bool
  is_batch_mode a = a.json || a.csv || a.report

  abbrev pub is_headless : Args → Bool
  is_headless a = a.no_tui || a.stream_json || a.daemon || is_some a.prometheus

  -- ":9090" stands for "0.0.0.0:9090".
  abbrev pub full_addr : Text → Text
  full_addr [] = []
  full_addr (c ∷ s) = if c == 58 then 48 ∷ 46 ∷ 48 ∷ 46 ∷ 48 ∷ 46 ∷ 48 ∷ c ∷ s else c ∷ s

  abbrev pub prometheus_addr : Args → Option (IpAddr × ℕ)
  prometheus_addr a = a.prometheus >>= λ addr. parse_socket_addr (full_addr addr)

  -- `if test { return Err(error) }`.
  pub refuse : Bool → ArgsError → Validated → Validated
  refuse true e rest = rejected e
  refuse false e rest = rest

  -- `validate_duration_arg(..)?`.
  abbrev pub validate_duration_arg : F64 → Validated → Validated
  validate_duration_arg value rest =
      refuse (not (is_finite value) || fle value (of_nat 0)) ArgsError.not_positive
        (refuse (not (is_some (to_duration value))) ArgsError.too_long rest)

  abbrev pub check_interface : Option Text → Validated → Validated
  check_interface none rest = rest
  check_interface (some name) rest =
      refuse (byte_len name == 0) ArgsError.interface_empty
        (refuse (ltb 15 (byte_len name)) ArgsError.interface_too_long rest)

  -- The scope of a zone: a number, or else the name of an interface.
  abbrev pub resolve_zone : Option ℕ → Text → Args → (Args → Validated) → Validated
  resolve_zone (some id) zone a rest = rest (record a { source_ip_scope_id = some id })
  resolve_zone none zone a rest =
      let index = if_nametoindex zone in
      refuse (has_char 0 zone) ArgsError.zone_name (
        refuse (index == 0) ArgsError.unknown_zone
          (rest (record a { source_ip_scope_id = some index })))

  abbrev pub with_zone : Option Text → Args → (Args → Validated) → Validated
  with_zone none a rest = rest a
  with_zone (some zone) a rest = resolve_zone (parse_u32 zone) zone a rest

  abbrev pub check_source_ip : Option Text → Args → (Args → Validated) → Validated
  check_source_ip none a rest = rest a
  check_source_ip (some raw) a rest =
      let parts = split_once 37 raw in
      refuse (not (is_some (parse_ip parts.0))) ArgsError.source_address (with_zone parts.1 a rest)

  -- The checks that concern the sending of probes.
  pub check_ranges : Args → Validated → Validated
  check_ranges a rest =
      let protocol = to_lowercase a.protocol in
      let base = or_port a.port (default_destination_port protocol) in
      refuse (not (is_known protocol)) ArgsError.unknown_protocol (
        validate_duration_arg a.interval (
          validate_duration_arg a.timeout (
            refuse (a.max_ttl == 0) ArgsError.ttl_zero (
              refuse (ltb 64 a.max_ttl) ArgsError.ttl_too_large (
                refuse (a.flows == 0) ArgsError.flows_zero (
                  refuse (ltb 16 a.flows) ArgsError.too_many_flows (
                    refuse (ltb 65535 (a.src_port + (a.flows - 1))) ArgsError.source_ports (
                      refuse
                        (uses_port protocol a.port
                          && not a.port_fixed
                          && ltb 65535 (base + a.max_ttl))
                        ArgsError.destination_ports
                        (refuse (fle (fmul (literal 256 1) a.interval) a.timeout)
                          ArgsError.sequence_wrap rest)))))))))

  pub validate : Args → Validated
  unfolding check_ranges
  validate a =
      let replay_or_diff = is_some a.replay || is_some a.diff in
      refuse (not replay_or_diff && is_empty a.targets && (is_batch_mode a || is_headless a))
        ArgsError.no_targets
        (refuse (not replay_or_diff && is_batch_mode a && (a.count == 0)) ArgsError.no_count (
          refuse (a.ipv4 && a.ipv6) ArgsError.both_families (
            check_ranges a (
              refuse (f32.flt a.speed (f32.literal 1 10) || f32.flt (f32.literal 1000 1) a.speed)
                ArgsError.speed_range
                (refuse (is_some a.prometheus && not (is_some (prometheus_addr a)))
                  ArgsError.prometheus_address
                  (check_interface a.interface (
                    check_source_ip a.source_ip a (λ b.
                      refuse (replay_or_diff && b.pmtud) ArgsError.pmtud_without_probes (
                        refuse (replay_or_diff && b.jumbo) ArgsError.jumbo_without_probes
                          (accepted b))))))))))

  -- `From<&Args> for Config`. `Duration::from_secs_f64` panics where `try_from_secs_f64` fails.
  abbrev pub config_of : Args → ℕ → ℕ → Config
  config_of a interval timeout =
      let protocol = protocol_of (to_lowercase a.protocol) in
      record {
        count = if a.count == 0 then none else some a.count;
        interval = interval;
        max_ttl = a.max_ttl;
        timeout = timeout;
        protocol = protocol;
        port = port_or a.port (default_port protocol);
        port_fixed = a.port_fixed;
        flows = a.flows;
        src_port_base = a.src_port;
        dns_enabled = not a.no_dns;
        asn_enabled = not a.no_asn;
        geo_enabled = not a.no_geo;
        ix_enabled = not a.no_ix;
        interface = a.interface;
        recv_any = a.recv_any;
        dscp = a.dscp;
        packet_size = a.size;
        pmtud = a.pmtud;
        jumbo = a.jumbo;
        rate = a.rate;
        source_ip = a.source_ip >>= λ s. parse_ip (split_once 37 s).0;
        source_ip_scope_id = a.source_ip_scope_id;
      }

  pub from_args : Args → Option Config
  from_args a = to_duration a.interval >>= λ interval.
      to_duration a.timeout >>= λ timeout. some (config_of a interval timeout)
