-- ===== src/Examples.antt =====
-- Concrete inputs: each theorem that has hypotheses at an input that meets them, and tests.
mod Toy
mod Arrivals
mod Leases
mod History
mod Outbox
mod Trees
mod Objects
mod Offers
mod Frames
mod Manifests
mod Shelves
mod Transfers
mod Trust
mod Hellos
mod Queues
