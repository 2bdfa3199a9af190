-- ===== src/State.antt =====
-- state/session.rs and state/ratelimit.rs: what a session knows of each hop.
pub mod Pmtud
pub mod Nat
pub mod TtlManip
pub mod Asymmetry
pub mod Flow
pub mod Responder
pub mod RateLimit
pub mod RateLimitInfo
pub mod Hop
pub mod Session
mod Tests
