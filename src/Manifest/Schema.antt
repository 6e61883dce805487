-- ===== src/Manifest/Schema.antt =====
-- The data types of crates/abra-core/src/manifest.rs.
use abra.Prelude.{ℕ, Bytes, List, Option}
use abra.Prelude.Map.{Map}
use abra.Canonical.Value.{Fields}

pub data Scope : Type 0 where
  full partial : Scope

pub record Origin : Type 0 where
  pub peer_id : ℕ
  pub name : Option Bytes
  pub adapter : Option Bytes

pub record Thumbnail : Type 0 where
  pub blob : ℕ
  pub media_type : Bytes
  pub bytes : ℕ

pub record Label : Type 0 where
  pub name : Bytes
  pub value : Option Bytes

pub record Provenance : Type 0 where
  pub capsule_id : ℕ
  pub snapshot_id : ℕ
  pub turn : Option Bytes

pub record Recipe : Type 0 where
  pub argv : List Bytes
  pub cwd : Bytes
  pub env : Map Bytes Bytes
  pub ports : List ℕ
  pub started_at : Option Bytes

pub record Fingerprint : Type 0 where
  pub os : Bytes
  pub arch : Bytes
  pub hypervisor : Bytes
  pub snapshot_format_major : ℕ
  pub cpu_template : Bytes
  pub cpu_identity : Bytes

pub record NativeBlobRef : Type 0 where
  pub role : Bytes
  pub blob : ℕ
  pub bytes : ℕ
  pub fingerprint : Fingerprint

pub record Manifest : Type 0 where
  pub spec : Bytes
  pub scope : Scope
  pub kind : Bytes
  pub title : Bytes
  pub origin : Origin
  pub created_at : Bytes
  pub summary : Option Bytes
  pub link : Option Bytes
  pub thumbnail : Option Thumbnail
  pub capsule_id : Option ℕ
  pub parents : Option (List ℕ)
  pub labels : Option (List Label)
  pub provenance : Option Provenance
  pub files : Option ℕ
  pub recipes : Option (List Recipe)
  pub native : Option (List NativeBlobRef)
  pub payload : Fields
  pub extensions : Option Fields
  pub signature : ℕ

-- Accepted bytes with their parsed view and their id.
pub record RawManifest : Type 0 where
  pub bytes : Bytes
  pub manifest : Manifest
  pub id : ℕ
