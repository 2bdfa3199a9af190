-- ===== src/Export.antt =====
-- export/: what is made of saved sessions.
pub mod Diff
mod Tests
