-- ===== src/Tui.antt =====
-- tui/: what the user interface does to its own state and to the sessions. Drawing is left out.
pub mod Replay
pub mod Settings
