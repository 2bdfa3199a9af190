-- ===== src/Lookup.antt =====
-- lookup/: what is known of an address.
pub mod Ix
