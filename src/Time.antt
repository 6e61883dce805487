-- ===== src/Time.antt =====
-- Canonical timestamps: `validate_time` of crates/abra-core/src/manifest.rs and `timestamp_ms` of
-- crates/abra-core/src/capsule.rs.
pub mod Validate
pub mod Civil
