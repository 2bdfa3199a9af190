-- ===== src/Setup/Cli/Accepted.antt =====
-- cli.rs and config.rs: what valid arguments promise to the engine and to the receiver.
use ttl.Base.{
  ℕ, ◌+◌, ◌-◌, ◌≤◌, ◌≡◌, refl, sym, subst, Bool, true, false, ◌&&◌, ◌||◌, Option, none, some,
  is_some, arith, Option-cases, inl, inr,
}
use ttl.Base.Float.{Float}
use ttl.Base.Texts.{Text, to_lowercase, parse_u32, split_once}
use ttl.Setup.Config.{Config}
use ttl.Setup.Cli.{
  ArgsError, Platform, Args, Validated, accepted, refuse, is_known, uses_port, or_port,
  default_destination_port, check_ranges, check_interface, check_source_ip, with_zone, resolve_zone,
  validate, from_args, config_of, validate_duration_arg,
}
use ttl.Setup.Cli.Safe.{known-Word, port_checked, IsSafe, valid_config}

module _ (f32 f64 : Float) (platform : Platform f64.F64) where
  open f64 use {F64, of_nat, fle}
  open platform use {to_duration}

  passes :
      (b : Bool) (e : ArgsError) (rest : Validated f32 f64 platform) (a : Args f32 f64 platform)
      → refuse f32 f64 platform b e rest ≡ accepted a
      → (b ≡ false) × (rest ≡ accepted a)
  unfolding refuse
  passes true e rest a h = absurd cc
  passes false e rest a h = (refl, h)

  -- What the checks of the probing arguments leave.
  record IsInRange (a : Args f32 f64 platform) : Type 0 where
    interval : ℕ
    interval_eq : to_duration a.interval ≡ some interval
    timeout : ℕ
    timeout_eq : to_duration a.timeout ≡ some timeout
    known : is_known (to_lowercase a.protocol) ≡ true
    ttl_above : 1 ≤ a.max_ttl
    ttl_below : a.max_ttl ≤ 64
    flows_above : 1 ≤ a.flows
    flows_below : a.flows ≤ 16
    source : a.src_port + (a.flows - 1) ≤ 65535
    destination :
        uses_port (to_lowercase a.protocol) a.port ≡ true
        → a.port_fixed ≡ false
        → or_port a.port (default_destination_port (to_lowercase a.protocol)) + a.max_ttl ≤ 65535

  duration :
      {value : F64} {rest : Validated f32 f64 platform} {a : Args f32 f64 platform}
      → validate_duration_arg f32 f64 platform value rest ≡ accepted a
      → ((n : ℕ) × (to_duration value ≡ some n)) × (rest ≡ accepted a)
  duration {value = value} {a = a} h =
      let first = passes _ _ _ a h in
      let second = passes _ _ _ a first.1 in
      elim (Option-cases (to_duration value)) [
        | inl gone ↦ absurd (ground (arith, gone, second.0))
        | inr (n, there) ↦ ((n, there), second.1)
      ]

  check_ranges-IsInRange :
      (a b : Args f32 f64 platform) (rest : Validated f32 f64 platform)
      → check_ranges f32 f64 platform a rest ≡ accepted b
      → IsInRange a × (rest ≡ accepted b)
  unfolding check_ranges
  check_ranges-IsInRange a b rest h =
      let h1 = passes _ _ _ b h in
      let h2 = duration h1.1 in
      let h3 = duration h2.1 in
      let h4 = passes _ _ _ b h3.1 in
      let h5 = passes _ _ _ b h4.1 in
      let h6 = passes _ _ _ b h5.1 in
      let h7 = passes _ _ _ b h6.1 in
      let h8 = passes _ _ _ b h7.1 in
      let h9 = passes _ _ _ b h8.1 in
      let h10 = passes _ _ _ b h9.1 in
      (
        record {
          interval = h2.0.0;
          interval_eq = h2.0.1;
          timeout = h3.0.0;
          timeout_eq = h3.0.1;
          known = ground (arith, h1.0);
          ttl_above = ground (arith, h4.0);
          ttl_below = ground (arith, h5.0);
          flows_above = ground (arith, h6.0);
          flows_below = ground (arith, h7.0);
          source = ground (arith, h8.0);
          destination = λ used varied. ground (arith, h9.0, used, varied);
        },
        h10.1,
      )

  -- The scope of the zone is all that the rest of the checks changes.
  IsScoped : Args f32 f64 platform → Args f32 f64 platform → Type 0
  IsScoped a b = b ≡ record a { source_ip_scope_id = b.source_ip_scope_id }

  rest-IsScoped :
      (diffing : Bool) (a b c : Args f32 f64 platform)
      → IsScoped a b
      → refuse f32 f64 platform
          (diffing && b.pmtud)
          ArgsError.pmtud_without_probes
          (refuse f32 f64 platform (diffing && b.jumbo) ArgsError.jumbo_without_probes (accepted b))
        ≡ accepted c
      → IsScoped a c
  unfolding IsScoped
  rest-IsScoped diffing a b c w h =
      let e : b ≡ c = accepted-inj (passes _ _ _ c (passes _ _ _ c h).1).1 in
      subst
        (λ (d : Args f32 f64 platform). d ≡ record a { source_ip_scope_id = d.source_ip_scope_id })
        e w
    where
      accepted-inj : {x y : Args f32 f64 platform} → accepted x ≡ accepted y → x ≡ y
      accepted-inj p = cc

  module _ (a c : Args f32 f64 platform) (rest : Args f32 f64 platform → Validated f32 f64 platform)
      (kept : (b : Args f32 f64 platform) → IsScoped a b → rest b ≡ accepted c → IsScoped a c) where
    resolve_zone-IsScoped :
        (o : Option ℕ) (zone : Text)
        → resolve_zone f32 f64 platform o zone a rest ≡ accepted c
        → IsScoped a c
    unfolding IsScoped
    resolve_zone-IsScoped (some id) zone h = kept (record a { source_ip_scope_id = some id }) refl h
    resolve_zone-IsScoped none zone h = kept _ refl (passes _ _ _ c (passes _ _ _ c h).1).1

    with_zone-IsScoped :
        (zone : Option Text) → with_zone f32 f64 platform zone a rest ≡ accepted c → IsScoped a c
    unfolding IsScoped
    with_zone-IsScoped none h = kept a refl h
    with_zone-IsScoped (some zone) h = resolve_zone-IsScoped (parse_u32 zone) zone h

    check_source_ip-IsScoped :
        (raw : Option Text)
        → check_source_ip f32 f64 platform raw a rest ≡ accepted c
        → IsScoped a c
    unfolding IsScoped
    check_source_ip-IsScoped none h = kept a refl h
    check_source_ip-IsScoped (some raw) h =
        with_zone-IsScoped (split_once 37 raw).1 (passes _ _ _ c h).1

  check_interface-keeps :
      (name : Option Text) (rest : Validated f32 f64 platform) (b : Args f32 f64 platform)
      → check_interface f32 f64 platform name rest ≡ accepted b
      → rest ≡ accepted b
  check_interface-keeps none rest b h = h
  check_interface-keeps (some name) rest b h = (passes _ _ _ b (passes _ _ _ b h).1).1

  validate-IsInRange :
      (a b : Args f32 f64 platform)
      → validate f32 f64 platform a ≡ accepted b
      → IsInRange a × IsScoped a b
  unfolding validate
  validate-IsInRange a b h =
      let h1 = passes _ _ _ b h in
      let h2 = passes _ _ _ b h1.1 in
      let h3 = passes _ _ _ b h2.1 in
      let h4 = check_ranges-IsInRange a b _ h3.1 in
      let h5 = passes _ _ _ b h4.1 in
      let h6 = passes _ _ _ b h5.1 in
      let h7 = check_interface-keeps a.interface _ b h6.1 in
      (
        h4.0,
        check_source_ip-IsScoped a b _
            (λ d w k. rest-IsScoped (is_some a.replay || is_some a.diff) a d b w k) a.source_ip h7,
      )

  from_args-IsSafe :
      (a : Args f32 f64 platform)
      → IsInRange a
      → (c : Config) × (from_args f32 f64 platform a ≡ some c) × IsSafe c
  unfolding from_args
  from_args-IsSafe a w =
      let c = config_of f32 f64 platform a w.interval w.timeout in
      (
        c,
        rw (w.interval_eq, w.timeout_eq) refl,
        valid_config c w.ttl_above w.ttl_below w.flows_above w.flows_below w.source
            (λ port other there (varied : a.port_fixed ≡ false).
              let e =
                port_checked a.port port (known-Word (to_lowercase a.protocol) w.known) other
                  there in
              omega (arith, e.1, w.destination e.0 varied)),
      )

  -- Arguments that pass the validation make a configuration, with no panic over their durations, and
  -- one on which the engine and the receiver can rely: at most 64 hops and 16 flows and one of each at
  -- least; no source port of a flow and no destination port of a hop wraps around; and the receiver
  -- tells each flow by its source port, as long as the last one is not 65535.
  pub validate-from_args :
      (a b : Args f32 f64 platform)
      → validate f32 f64 platform a ≡ accepted b
      → (c : Config) × (from_args f32 f64 platform b ≡ some c) × IsSafe c
  unfolding IsScoped
  validate-from_args a b h =
      let (w, scoped) = validate-IsInRange a b h in
      from_args-IsSafe b (
        subst IsInRange (sym scoped) (record {
          interval = w.interval;
          interval_eq = w.interval_eq;
          timeout = w.timeout;
          timeout_eq = w.timeout_eq;
          known = w.known;
          ttl_above = w.ttl_above;
          ttl_below = w.ttl_below;
          flows_above = w.flows_above;
          flows_below = w.flows_below;
          source = w.source;
          destination = w.destination;
        }))
