-- ===== src/Setup/Cli/Safe.antt =====
-- cli.rs and config.rs: what the engine and the receiver rely on in a configuration.
use ttl.Base.{
  ℕ, ◌+◌, ◌-◌, ◌≤◌, ◌<◌, ◌≡◌, ◌≢◌, refl, sym, subst, true, false, Option, none, some, [], ◌∷◌,
  arith, Bool-cases, inl, inr,
}
use ttl.Base.Words.{add16}
use ttl.Base.Texts.{Text, text_eq}
use ttl.Setup.Config.{Config, icmp}
use ttl.Setup.Cli.{
  auto_text, icmp_text, udp_text, tcp_text, is_known, uses_port, or_port, port_or, default_port,
  default_destination_port, protocol_of,
}
use ttl.Trace.Receiver.{derive_flow_hint}
use ttl.Trace.Receiver.Hints.{derive_flow_hint_iff}

text_eq-eq : (s t : Text) → text_eq s t ≡ true → s ≡ t
text_eq-eq [] [] h = refl
text_eq-eq [] (d ∷ t) h = absurd (ground arith)
text_eq-eq (c ∷ s) [] h = absurd (ground arith)
text_eq-eq (c ∷ s) (d ∷ t) h = grind (arith, text_eq-eq s t)

-- The words for protocols.
pub data Word : Text → Type 0 where
  auto_word : Word auto_text
  icmp_word : Word icmp_text
  udp_word : Word udp_text
  tcp_word : Word tcp_text

pub known-Word : (t : Text) → is_known t ≡ true → Word t
known-Word t h = elim (Bool-cases (text_eq t auto_text)) [
  | inl e ↦ subst Word (sym (text_eq-eq t auto_text e)) auto_word
  | inr a ↦ elim (Bool-cases (text_eq t icmp_text)) [
    | inl e ↦ subst Word (sym (text_eq-eq t icmp_text e)) icmp_word
    | inr i ↦ elim (Bool-cases (text_eq t udp_text)) [
      | inl e ↦ subst Word (sym (text_eq-eq t udp_text e)) udp_word
      | inr u ↦ subst Word (sym (text_eq-eq t tcp_text (ground (arith, h, a, i, u)))) tcp_word
    ]
  ]
]

-- The port of the configuration is the one that was checked.
pub port_checked :
    {t : Text} (port : Option ℕ) (p : ℕ)
    → Word t
    → protocol_of t ≢ icmp
    → port_or port (default_port (protocol_of t)) ≡ some p
    → (uses_port t port ≡ true) × (or_port port (default_destination_port t) ≡ p)
port_checked none p auto_word other e = absurd (ground (arith, e))
port_checked (some q) p auto_word other e = (refl, ground (arith, e))
port_checked port p icmp_word other e = absurd (other refl)
port_checked none p udp_word other e = (refl, ground (arith, e))
port_checked (some q) p udp_word other e = (refl, ground (arith, e))
port_checked none p tcp_word other e = (refl, ground (arith, e))
port_checked (some q) p tcp_word other e = (refl, ground (arith, e))

-- What the engine and the receiver rely on: the hops and flows are few, no port of a probe wraps, and
-- the receiver tells the flows apart by their source ports, unless the last of them is 65535.
pub record IsSafe (c : Config) : Type 0 where
  pub ttls : (1 ≤ c.max_ttl) × (c.max_ttl ≤ 64)
  pub few_flows : (1 ≤ c.flows) × (c.flows ≤ 16)
  pub source_ports : (k : ℕ) → k < c.flows → add16 c.src_port_base k ≡ c.src_port_base + k
  pub destination_ports :
      (port ttl : ℕ)
      → c.protocol ≢ icmp
      → c.port ≡ some port
      → c.port_fixed ≡ false
      → ttl ≤ c.max_ttl
      → add16 port ttl ≡ port + ttl
  pub flows_told :
      (k : ℕ)
      → k < c.flows
      → c.src_port_base + c.flows < 65536
      → derive_flow_hint c.src_port_base c.flows (some (c.src_port_base + k)) ≡ some k

pub valid_config :
    (c : Config)
    → 1 ≤ c.max_ttl
    → c.max_ttl ≤ 64
    → 1 ≤ c.flows
    → c.flows ≤ 16
    → c.src_port_base + (c.flows - 1) ≤ 65535
    → ((port : ℕ)
        → c.protocol ≢ icmp
        → c.port ≡ some port
        → c.port_fixed ≡ false
        → port + c.max_ttl ≤ 65535)
    → IsSafe c
valid_config c h1 h2 h3 h4 h5 h6 = record {
  ttls = (h1, h2);
  few_flows = (h3, h4);
  source_ports = λ k below. omega arith;
  destination_ports =
      λ port ttl other there varied small. let h = h6 port other there varied in omega arith;
  flows_told = λ k below fits.
      (derive_flow_hint_iff c.src_port_base c.flows (c.src_port_base + k) k fits (omega arith)).1
        (refl, below);
}
