-- ===== src/Capsule/State.antt =====
-- `Capsule` of crates/abra-core/src/capsule.rs and its getters.
use abra.Prelude.Int.{ℤ, pos, leb_ℤ}
use abra.Prelude.{
  ℕ, ◌^◌, Bytes, Bool, false, Option, none, some, List, get_elem?, ltb, Result, ok, err,
  if◌then◌else◌, nat_eq, bytes_eq, list_beq,
}
use abra.Prelude.Map.{Map, get}
use abra.Time.Civil.{timestamp_ms}
use abra.Manifest.Schema.{RawManifest}
use abra.Capsule.Genesis.{Genesis}
use abra.Capsule.LeaseRecord.{LeaseRecord}
use abra.Capsule.LabelOp.{LabelOp}

pub record SnapshotRecord : Type 0 where
  pub raw : RawManifest
  pub received_at : Bytes
  pub orphan : Bool

pub record WriteResult : Type 0 where
  pub snapshot_id : ℕ
  pub forked : Bool
  pub fork_label : Option Bytes

pub record Capsule : Type 0 where
  pub genesis : Genesis
  pub snapshots : Map ℕ SnapshotRecord
  pub leases : List LeaseRecord
  pub winner : Option ℕ
  pub labels : Map Bytes LabelOp
  pub fork_counts : Map ℕ ℕ
  pub evidence : List LeaseRecord

-- `self.winner.map(|i| &self.leases[i])`; the index is in range by `Capsule/Lease/Invariant.antt`.
abbrev pub lease_at : List LeaseRecord → Option ℕ → Option LeaseRecord
lease_at ls none = none
lease_at ls (some i) = get_elem? ls i

unfoldable pub winning_lease : Capsule → Option LeaseRecord
winning_lease s = lease_at s.leases s.winner

-- `i64::try_from(now)`, then `end >= now`
abbrev pub ends_after : Result ℤ → ℕ → Bool
ends_after (ok end) now = leb_ℤ (pos now) end
ends_after (err e) now = false

abbrev pub keep_if {ℓ} : {A : Type ℓ} → (A → Bool) → Option A → Option A
keep_if p none = none
keep_if p (some a) = if p a then some a else none

unfoldable pub active_lease : Capsule → ℕ → Option LeaseRecord
active_lease s now =
    if ltb now (2 ^ 63)
    then keep_if (λ l. ends_after (timestamp_ms l.expires_at) now) (winning_lease s)
    else none

unfoldable pub snapshot : Capsule → ℕ → Option SnapshotRecord
unfolding get
snapshot s id = get s.snapshots id

unfoldable pub label : Capsule → Bytes → Option LabelOp
unfolding get list_beq
label s n = get s.labels n
