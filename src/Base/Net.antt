-- ===== src/Base/Net.antt =====
-- `std::net::IpAddr`: an address is the number that its octets stand for.
use Prim.Native.Nat.{ℕ}
use mathlib.Core.Path.{◌≡◌}
use mathlib.Core.Logic.{◌↔◌}
use mathlib.Core.Bool.{Bool, true, false}
use native.Mathlib.Omega.{arith}
use ttl.Base.Tests.{◌==◌}

pub data IpAddr : Type 0 where
  v4 v6 : ℕ → IpAddr

abbrev pub is_ipv6 : IpAddr → Bool
is_ipv6 (v4 a) = false
is_ipv6 (v6 a) = true

-- `==` on addresses.
abbrev pub ip_eq : IpAddr → IpAddr → Bool
ip_eq (v4 a) (v4 b) = a == b
ip_eq (v6 a) (v6 b) = a == b
ip_eq _ _ = false

pub ip_eq_iff : (a b : IpAddr) → (ip_eq a b ≡ true) ↔ (a ≡ b)
ip_eq_iff (v4 a) (v4 b) = ground arith
ip_eq_iff (v4 a) (v6 b) = ground arith
ip_eq_iff (v6 a) (v4 b) = ground arith
ip_eq_iff (v6 a) (v6 b) = ground arith

pub ip_eq_self : (a : IpAddr) → ip_eq a a ≡ true
ip_eq_self (v4 a) = ground arith
ip_eq_self (v6 a) = ground arith
