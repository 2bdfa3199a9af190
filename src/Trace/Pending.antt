-- ===== src/Trace/Pending.antt =====
-- trace/pending.rs: the map of the probes sent and not yet answered. Times are numbers.
use ttl.Base.{ℕ, ◌≡◌, ◌↔◌, Bool, true, false, ◌&&◌, Option, List, ◌==◌, ==_iff, arith}
use ttl.Base.Net.{IpAddr, ip_eq, ip_eq_iff}
use ttl.Base.Assoc.{Key}
use ttl.Probe.Id.{ProbeId, id_eq}

pub record PendingProbe : Type 0 where
  pub sent_at : ℕ
  pub target : IpAddr
  pub flow_id : ℕ
  pub original_src_port : Option ℕ
  pub packet_size : Option ℕ

pub record PendingKey : Type 0 where
  pub probe_id : ProbeId
  pub flow_id : ℕ
  pub target : IpAddr
  pub is_pmtud : Bool

abbrev pub PendingMap : Type 0
PendingMap = List (PendingKey × PendingProbe)

abbrev pub same_kind : Bool → Bool → Bool
same_kind true b = b
same_kind false true = false
same_kind false false = true

abbrev pub key_eq : PendingKey → PendingKey → Bool
key_eq a b =
    id_eq a.probe_id b.probe_id
    && a.flow_id == b.flow_id
    && ip_eq a.target b.target
    && same_kind a.is_pmtud b.is_pmtud

pub same_kind_iff : (a b : Bool) → (same_kind a b ≡ true) ↔ (a ≡ b)
same_kind_iff true true = ground arith
same_kind_iff true false = ground arith
same_kind_iff false true = ground arith
same_kind_iff false false = ground arith

pub id_eq_iff : (a b : ProbeId) → (id_eq a b ≡ true) ↔ (a ≡ b)
id_eq_iff a b = ground (arith, ==_iff a.ttl b.ttl, ==_iff a.seq b.seq)

pub key_eq_iff : (a b : PendingKey) → (key_eq a b ≡ true) ↔ (a ≡ b)
key_eq_iff a b = ground (
  arith,
  id_eq_iff a.probe_id b.probe_id,
  ip_eq_iff a.target b.target,
  same_kind_iff a.is_pmtud b.is_pmtud,
)

instance abbrev pub pending_key : Key PendingKey
pending_key = record { same = key_eq; same_iff = key_eq_iff }
