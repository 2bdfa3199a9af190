-- ===== src/Setup.antt =====
-- config.rs and cli.rs: what a run is told.
pub mod Config
pub mod Cli
