-- ===== src/Canonical.antt =====
-- crates/abra-core/src/canonical.rs: Abra-CJSON.
pub mod Value
pub mod Write
