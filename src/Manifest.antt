-- ===== src/Manifest.antt =====
-- crates/abra-core/src/manifest.rs: the snapshot manifest.
pub mod Schema
pub mod Text
pub mod Encode
pub mod Check
pub mod Scoped
pub mod Raw
