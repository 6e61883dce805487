-- ===== src/Capsule.antt =====
-- crates/abra-core/src/capsule.rs: capsule history, leases, labels, orphans and forks.
pub mod Signed
pub mod Genesis
pub mod LeaseRecord
pub mod LabelOp
pub mod State
pub mod Lease
pub mod Snapshot
pub mod Ancestry
pub mod Label
