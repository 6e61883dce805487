-- ===== src/Cas.antt =====
-- crates/abra-core/src/cas.rs: content-addressed objects and directory trees.
pub mod Utf8
pub mod Tree
pub mod Codec
pub mod Order
pub mod Slices
pub mod Parse
pub mod RoundTrip
pub mod Decoded
pub mod Fuel
pub mod Store
