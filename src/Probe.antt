-- ===== src/Probe.antt =====
-- probe/: what is put into a probe, and how a response is matched to it.
pub mod Id
pub mod Outcome
pub mod Checksum
pub mod Mpls
pub mod Extensions
pub mod Response
pub mod Quoted
pub mod Correlate
pub mod Udp
pub mod RawIp
pub mod Echo
pub mod Tcp
mod Tests
mod SentTests
