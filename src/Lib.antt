-- ===== src/Lib.antt =====
-- Abra: portable work capsules that are signed, handed between devices and delivered over a network.
--
-- The program's parts and the files that model them:
--   crates/abra-core/src/canonical.rs    Canonical.antt     the canonical JSON that is hashed and signed
--   crates/abra-core/src/identity.rs     Identity.antt      signatures in a domain
--   (validate_time, timestamp_ms)        Time.antt          the timestamps of manifests and records
--   crates/abra-core/src/manifest.rs     Manifest.antt      the manifest of a snapshot
--   crates/abra-core/src/capsule.rs      Capsule.antt       leases, snapshots, ancestry and labels
--   crates/abra-net/src/outbox.rs        Net/Outbox.antt    the queue of deliveries and its handles
--   crates/abra-net/src/delivery.rs      Net/Ack.antt       the receipt of a delivery
--   crates/abra-net/src/delivery.rs      Net/Delivery.antt  the offer of a snapshot, its plan and its transfer
--   crates/abra-net/src/auth.rs          Net/Time.antt      `format_time` and `parse_time`
--   crates/abra-net/src/auth.rs          Net/Auth.antt      trust between devices: scopes, pairing, guests,
--                                                           revocations and the handshake
--   crates/abra-net/src/framing.rs       Net/Framing.antt   control frames and object headers
--   crates/abra-relay/src/lib.rs         Relay.antt         the relay's queue of sealed envelopes
--   crates/abra-core/src/cas.rs          Cas.antt           directory trees and the object store
--   crates/abra-core/src/restore.rs      Restore.antt       `plan_native`
--   crates/abra-core/src/store.rs        Shelf.antt         the capsules of a device and their files
--
-- A capsule is a genesis record, a history of leases, a set of snapshots and a set of labels. A
-- manifest is signed by its writer; a lease says which device may move the label `main`; a label op
-- is signed by its author. All of these are hashed and signed as canonical JSON. `Capsule` is a
-- record with the fields of the struct; `Capsule::accept_lease`, `insert_snapshot`, `apply_label`,
-- `descends_from` and `resolve_orphans` are functions of the same names. A method that takes
-- `&mut self` returns the new state next to its result, and an error leaves the old state.
-- Outbox operations are functions on the disk state, and Net/Outbox/Handles.antt runs them the way
-- `Outbox::mutate` does, through handles that share a file. Net/Outbox/Steps.antt runs histories of
-- the outbox of the file and its detached copies, each a disk state, `sync_entry_from` between them
-- included. `AbraStore` (Shelf.antt) changes a clone
-- of a capsule and puts it back when all of the operation has succeeded; `receive_full` is in
-- Shelf/Receive.antt. `BlobStore` (Cas/Store.antt) is the files by digest, damaged ones included,
-- and `plan_native` (Restore.antt) reads them.
-- `TrustStore` (Net/Auth) is the state of a handle and the file that the handles of a device share:
-- Trust.antt has the state and the merge of a handle into the file, Save.antt what else a save does,
-- Pairs, Guests, Revocations and Addresses.antt the operations, Authorize.antt the decisions that
-- read the state, Hello.antt the handshake, and History.antt runs the calls of any number of handles.
-- Scopes, Certificates, Enrollment and Pairing.antt are the records that the operations exchange.
-- A receiver admits an offer (`validate_incoming_offer`, Net/Delivery.antt), checks its plan
-- (Net/Delivery/Plan.antt) and takes the streams of its objects (Net/Delivery/Transfer.antt), where
-- the state is the partial files, the staged store, the hashers and the set of completed objects.
--
-- Conventions: an integer of w bits is a natural number with its wrap-around or saturation written
-- out; bytes and UTF-8 text are lists of numbers; a digest, a key or a signature is the number of its
-- bytes, so that its order is that of the bytes; a BTreeMap or HashMap is an association list with
-- distinct keys. Errors keep their kind and their text without the values that are formatted into it.
-- Examples.antt and its children run the definitions at concrete inputs.
--
-- BLAKE3, Ed25519, hex and their codecs are third-party crates: Crates.antt is a record of
-- functions for them, an instance argument of what uses them. Relay.antt has one for SHA-256 and
-- serde, Manifest/Raw.antt for what serde parses, and Net/Delivery for base64 and blake3's hasher.
-- Examples/Toy.antt has a concrete one.
--
-- Fuel and termination: the search of `descends_from` runs on fuel of one step per entry of the
-- pending list, bounded by the parents of all held snapshots (Capsule/Ancestry/Fuel.antt); the
-- loop of `resolve_orphans` runs on two passes, since the second changes nothing
-- (Capsule/Snapshot/Orphans.antt); decimal
-- digits are written on fuel 20, the digits of a 64-bit number; the loop of `Tree::decode` runs on
-- the length of its text, since an entry takes more than 40 bytes (Cas/Fuel.antt); the loop of
-- `evict_oldest` runs on the size of the map, since each round removes an entry (Net/Auth/Save); the
-- loop that reads a partial file runs on its length, since each read takes a byte at least
-- (Net/Delivery/Transfer/Complete.antt). The other loops are structural.
--
-- Not modelled: failing file operations, network I/O, async tasks, the text forms of tickets and
-- tokens, which are base64 of JSON that serde parses, the dial hints of transport.rs, which the iroh
-- crate parses (a parameter of Net/Auth), the sending of an offer, the walk over stored trees, share
-- links, the relay's HTTP front end, process capture, the daemon and the command line, and adapters
-- in other languages.
pub mod Canonical
pub mod Capsule
pub mod Cas
pub mod Crates
pub mod Examples
pub mod Identity
pub mod Manifest
pub mod Net
pub mod Prelude
pub mod Relay
pub mod Restore
pub mod Shelf
pub mod Time
