-- ===== src/Trace.antt =====
-- trace/: the probes that wait for an answer, and the matching of an answer to one of them.
pub mod Pending
pub mod Receiver
pub mod Engine
pub mod Sample
mod Tests
