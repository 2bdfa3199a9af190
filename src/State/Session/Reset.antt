-- ===== src/State/Session/Reset.antt =====
-- state/session.rs, `Session::reset_stats`: a session that has been reset is a new one.
use ttl.Base.{
  ℕ, ◌+◌, ◌≡◌, refl, ap, ◌∙◌, Bool, Option, none, some, List, [], ◌∷◌, map, length, is_some,
  if◌then◌else◌,
}
use ttl.Base.Net.{is_ipv6}
use ttl.Base.Float.{Float}
use ttl.State.Pmtud
use ttl.State.Pmtud.{PmtudState}
use ttl.State.Hop
use ttl.State.Hop.{Hop}
use ttl.State.Session
use ttl.State.Session.{Session, hops_from, restart_pmtud, reset_hop, reset_stats}
use ttl.State.Session.Invariant.{AllFrom, IsWellFormed}

restart_pmtud-eq :
    (ipv6 jumbo wanted : Bool) (p : Option PmtudState)
    → is_some p ≡ wanted
    → restart_pmtud ipv6 jumbo p ≡ (if wanted then some (Pmtud.new ipv6 jumbo) else none)
restart_pmtud-eq ipv6 jumbo wanted none h = rw (← h) refl
restart_pmtud-eq ipv6 jumbo wanted (some p) h = rw (← h) refl

module _ (f64 : Float) where
  reset_hop-eq : (h : Hop f64) (ttl : ℕ) → h.ttl ≡ ttl → reset_hop f64 h ≡ Hop.new f64 ttl
  unfolding reset_hop Hop.new
  reset_hop-eq h ttl e = rw (← e) refl

  map-reset_hop :
      (ttl : ℕ) (hs : List (Hop f64))
      → AllFrom f64 ttl hs
      → map (reset_hop f64) hs ≡ hops_from f64 ttl (length hs)
  unfolding hops_from
  map-reset_hop ttl [] a = refl
  map-reset_hop ttl (h ∷ hs) a =
      let tail = map-reset_hop (ttl + 1) hs a.1 in rw (reset_hop-eq h ttl a.0, tail) refl

  -- To reset a well-formed session is to make a new one for its target and configuration, but that
  -- the pause, the source address, the gateway and the count of changes stay what they are.
  pub reset_stats-eq-new :
      (now instant : ℕ) (s : Session f64)
      → IsWellFormed f64 s
      → reset_stats f64 now instant s ≡ record (Session.new f64 s.target s.config now instant) {
        paused = s.paused;
        source_ip = s.source_ip;
        gateway = s.gateway;
        render_generation = s.render_generation;
      }
  unfolding reset_stats Session.new
  reset_stats-eq-new now instant s w =
      let hops = map-reset_hop 1 s.hops w.indexed ∙ ap (hops_from f64 1) w.full in
      let pmtud =
        restart_pmtud-eq (is_ipv6 s.target.resolved) s.config.jumbo s.config.pmtud s.pmtud
          w.searching in
      cc
