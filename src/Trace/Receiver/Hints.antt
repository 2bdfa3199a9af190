-- ===== src/Trace/Receiver/Hints.antt =====
-- trace/receiver.rs, `derive_flow_hint`: source ports and flows.
use ttl.Base.{ℕ, ◌+◌, ◌≤◌, ◌<◌, ◌≡◌, ◌↔◌, none, some, arith}
use ttl.Trace.Receiver.{derive_flow_hint}

-- While the last source port of the flows is below 65535 and there are at most 256 flows, a port is
-- taken for flow `k` exactly if it is the base port plus `k` and there is such a flow.
pub derive_flow_hint_iff :
    (base flows port k : ℕ)
    → base + flows < 65536
    → flows ≤ 256
    → (derive_flow_hint base flows (some port) ≡ some k) ↔ ((port ≡ base + k) × (k < flows))
unfolding derive_flow_hint
derive_flow_hint_iff base flows port k fits few = ground arith

-- When the last source port of the flows is 65535, no port is taken for any flow: the sum of base
-- port and number of flows wraps to zero.
pub derive_flow_hint-lost :
    (base flows port : ℕ) → base + flows ≡ 65536 → derive_flow_hint base flows (some port) ≡ none
unfolding derive_flow_hint
derive_flow_hint-lost base flows port wraps = ground arith
