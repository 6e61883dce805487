-- ===== src/Net.antt =====
-- crates/abra-net: the network side.
pub mod Time
pub mod Ack
pub mod Outbox
pub mod Framing
pub mod Sorted
pub mod Auth
pub mod Delivery
