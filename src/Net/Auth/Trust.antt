-- ===== src/Net/Auth/Trust.antt =====
-- `TrustDisk` and `TrustStore` of crates/abra-net/src/auth.rs: what a device knows of its peers, in
-- the memory of a handle and in the file that the handles of the device share. The file is the state
-- that `save` has written, since serde reads back what it has written; errors of the file system are
-- not modelled, and each operation runs under its lock.
pub mod Merge
pub mod Fields
use abra.Prelude.{
  ℕ, Bytes, Bool, true, false, not, ◌&&◌, ◌||◌, ◌-◌, Option, none, some, List, [], ◌∷◌, ◌++◌, any,
  length, retain, ◌==◌, nat_eq, bytes_eq, ltb, leb, is_none_or, Result, ok, err, if◌then◌else◌,
}
use abra.Prelude.Map.{Map, get, contains_key, keys, values}
use abra.Net.Time.{parse_time}
use abra.Net.Sorted.{BTreeSet, insert, remove, extend, retain_entries, nat_ord, bytes_ord}
use abra.Net.Auth.Scopes.{Role, MeshProfile, Scopes}
use abra.Net.Auth.Certificates.{BindCertificate, Revocation}
use abra.Net.Auth.Enrollment.{EnrollmentToken}
use abra.Net.Auth.Pairing.{PairTicket}

pub data LocalRole : Type 0 where
  full : LocalRole
  guest : EnrollmentToken → LocalRole

pub record TrustedPeer : Type 0 where
  pub peer_id : ℕ
  pub name : Bytes
  pub role : Role
  pub x25519_pk : ℕ
  pub relay_key : Option ℕ
  pub token_id : Option Bytes
  pub scopes : Option Scopes
  pub expires_at : Option Bytes
  pub addresses : List Bytes

pub record StoredRevocation : Type 0 where
  pub revocation : Revocation
  pub relevant_until : Bytes

pub record StoredBindCertificate : Type 0 where
  pub issuer : ℕ
  pub certificate : BindCertificate

pub record TrustDisk : Type 0 where
  pub mesh_profile : MeshProfile
  pub local_role : LocalRole
  pub peers : Map ℕ TrustedPeer
  pub peer_versions : Map ℕ ℕ
  pub peer_pair_tickets : Map ℕ Bytes
  pub cancelled_pairs : BTreeSet Bytes
  pub pending_tickets : Map Bytes PairTicket
  pub awaiting_pair_confirm : Map Bytes TrustedPeer
  pub used_tickets : BTreeSet Bytes
  pub bound_tokens : Map Bytes ℕ
  pub bind_certificates : Map ℕ StoredBindCertificate
  pub revoked : BTreeSet Bytes
  pub revocations : Map Bytes StoredRevocation
  pub control_nonces : Map Bytes ℕ

-- `TrustDisk::default()`
abbrev pub default : TrustDisk
default = record {
  mesh_profile = MeshProfile.personal;
  local_role = LocalRole.full;
  peers = [];
  peer_versions = [];
  peer_pair_tickets = [];
  cancelled_pairs = [];
  pending_tickets = [];
  awaiting_pair_confirm = [];
  used_tickets = [];
  bound_tokens = [];
  bind_certificates = [];
  revoked = [];
  revocations = [];
  control_nonces = [];
}

-- A handle, with the file of its path.
pub record TrustStore : Type 0 where
  pub disk : TrustDisk
  pub file : Option TrustDisk

-- `read_disk`: no file is the default
unfoldable pub read_disk : Option TrustDisk → TrustDisk
read_disk none = default
read_disk (some d) = d

unfoldable pub open_store : Option TrustDisk → TrustStore
unfolding read_disk
open_store file = record { disk = read_disk file; file = file }

unfoldable pub reload : TrustStore → TrustStore
unfolding read_disk
reload s = record s { disk = read_disk s.file }

-- `peer_versions.get(peer).copied().unwrap_or(0)`
abbrev or_zero : Option ℕ → ℕ
or_zero none = 0
or_zero (some v) = v

unfoldable pub version_of : TrustDisk → ℕ → ℕ
version_of d peer = or_zero (get d.peer_versions peer)

-- What a merge leaves of a key whose version is not older: the handle's value, or a versioned
-- absence.
unfoldable pub take_over {ℓ} : {V : Type ℓ} → Map ℕ V → ℕ → Option V → ℕ → Map ℕ V
unfolding remove
take_over m peer (some v) version = insert m peer v
take_over m peer none version = if ltb 0 version then remove m peer else m

-- The body of the loop of `merge_disk_state`.
unfoldable pub merge_peer : TrustDisk → ℕ → TrustDisk → TrustDisk
merge_peer mine peer merged =
    let version = version_of mine peer in
    if ltb version (version_of merged peer) then merged else record merged {
      peers = take_over merged.peers peer (get mine.peers peer) version;
      peer_pair_tickets =
          take_over merged.peer_pair_tickets peer (get mine.peer_pair_tickets peer) version;
      peer_versions =
          (if ltb 0 version
            then insert merged.peer_versions peer version
            else merged.peer_versions);
    }

unfoldable pub merge_peers : TrustDisk → List ℕ → TrustDisk → TrustDisk
merge_peers mine [] merged = merged
merge_peers mine (peer ∷ list) merged = merge_peers mine list (merge_peer mine peer merged)

-- `bound_tokens.entry(token).or_insert(peer)` for the handle's tokens
unfoldable pub merge_bound : Map Bytes ℕ → Map Bytes ℕ → Map Bytes ℕ
merge_bound merged [] = merged
merge_bound merged ((token, peer) ∷ mine) =
    merge_bound (if contains_key merged token then merged else insert merged token peer) mine

abbrev same_ticket : Option Bytes → Bytes → Bool
same_ticket none ticket = false
same_ticket (some other) ticket = other == ticket

unfoldable pub still_awaited : TrustDisk → Bytes → TrustedPeer → Bool
still_awaited merged ticket peer =
    not (contains_key merged.cancelled_pairs ticket)
    && not (same_ticket (get merged.peer_pair_tickets peer.peer_id) ticket)

-- The first part of `merge_disk_state`: what is taken over whole or joined.
unfoldable pub merge_maps : TrustDisk → TrustDisk → TrustDisk
unfolding extend merge_bound
merge_maps mine theirs = record theirs {
  mesh_profile = mine.mesh_profile;
  local_role = mine.local_role;
  pending_tickets = extend theirs.pending_tickets mine.pending_tickets;
  awaiting_pair_confirm = extend theirs.awaiting_pair_confirm mine.awaiting_pair_confirm;
  used_tickets = extend theirs.used_tickets mine.used_tickets;
  bound_tokens = merge_bound theirs.bound_tokens mine.bound_tokens;
  bind_certificates = extend theirs.bind_certificates mine.bind_certificates;
  revoked = extend theirs.revoked mine.revoked;
  revocations = extend theirs.revocations mine.revocations;
  control_nonces = extend theirs.control_nonces mine.control_nonces;
  cancelled_pairs = extend theirs.cancelled_pairs mine.cancelled_pairs;
}

-- The last part: tickets that are used, and confirmations that are cancelled or done.
unfoldable pub drop_settled : TrustDisk → TrustDisk
drop_settled merged = record merged {
  pending_tickets =
      retain_entries (λ ticket t. not (contains_key merged.used_tickets ticket))
        merged.pending_tickets;
  awaiting_pair_confirm = retain_entries (still_awaited merged) merged.awaiting_pair_confirm;
}

unfoldable pub merge_disk_state : TrustDisk → TrustDisk → TrustDisk
merge_disk_state mine theirs =
    drop_settled
      (merge_peers mine (keys mine.peers ++ keys mine.peer_versions) (merge_maps mine theirs))
