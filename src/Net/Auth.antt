-- ===== src/Net/Auth.antt =====
-- crates/abra-net/src/auth.rs: who may do what, and how peers come to trust one another.
pub mod Scopes
pub mod Signing
pub mod Certificates
pub mod Enrollment
pub mod Pairing
pub mod Trust
pub mod Save
pub mod Pairs
pub mod Guests
pub mod Revocations
pub mod Authorize
pub mod Addresses
pub mod History
pub mod Hello
