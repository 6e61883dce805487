-- ===== src/Capsule/Snapshot.antt =====
-- `Capsule::insert_snapshot` and `resolve_orphans` of crates/abra-core/src/capsule.rs.
pub mod Orphans
pub mod Insert
pub mod History
use abra.Crates.{Crates}
use abra.Prelude.{
  ℕ, zero, suc, Bytes, ascii, Bool, true, false, not, ◌&&◌, ◌||◌, Option, none, some, List, [], ◌∷◌,
  ◌++◌, any, all, take, is_some_and, is_none_or, ◌==◌, nat_eq, bytes_eq, list_beq, Result, ok,
  invalid, corrupt, panic, ◌>>=◌, ◌>>◌, refuse_if, ok_or, if◌then◌else◌,
}
use abra.Prelude.Map.{Map, get, insert, contains_key, values}
use abra.Manifest.Schema.{Scope, RawManifest}
use abra.Capsule.State.{Capsule, SnapshotRecord, WriteResult, active_lease}

abbrev pub Snapshots : Type 0
Snapshots = Map ℕ SnapshotRecord

-- `parents.as_ref().unwrap()` of a record that the capsule holds: `insert_snapshot` has unwrapped
-- the parents of each.
abbrev pub or_empty : Option (List ℕ) → List ℕ
or_empty none = []
or_empty (some ps) = ps

abbrev pub parents_of : SnapshotRecord → List ℕ
parents_of r = or_empty r.raw.manifest.parents

-- Is every parent in the map?
unfoldable pub knows_all : Snapshots → List ℕ → Bool
unfolding contains_key
knows_all m ps = all (λ p. contains_key m p) ps

-- One pass of the loop of `resolve_orphans`, with `known` fixed at its start.
unfoldable pub resolve_record : Snapshots → SnapshotRecord → SnapshotRecord
unfolding knows_all
resolve_record known r =
    if r.orphan && knows_all known (parents_of r) then record r { orphan = false } else r

unfoldable pub resolve_pass : Snapshots → Snapshots → Snapshots
unfolding resolve_record
resolve_pass known [] = []
resolve_pass known ((k, r) ∷ m) = (k, resolve_record known r) ∷ resolve_pass known m

-- `changed` after the pass
unfoldable pub changes : Snapshots → Snapshots → Bool
unfolding knows_all
changes known [] = false
changes known ((k, r) ∷ m) = (r.orphan && knows_all known (parents_of r)) || changes known m

-- The loop, until a pass changes nothing. Two passes are enough: `Capsule/Snapshot/Orphans.antt`.
unfoldable pub resolve_loop : ℕ → Snapshots → Option Snapshots
unfolding resolve_pass changes
resolve_loop zero m = none
resolve_loop (suc fuel) m =
    let again = resolve_loop fuel (resolve_pass m m) in
    if changes m m then again else some (resolve_pass m m)

unfoldable pub resolve_orphans : Snapshots → Result Snapshots
resolve_orphans m = ok_or (resolve_loop 2 m) (panic "out of fuel")

abbrev pub is_full : Scope → Bool
is_full Scope.full = true
is_full Scope.partial = false

-- `m.capsule_id == Some(id)`
abbrev pub is_in : Option ℕ → ℕ → Bool
is_in o id = is_some_and o (λ c. c == id)

-- `Vec::is_empty`
abbrev pub is_empty : List ℕ → Bool
is_empty [] = true
is_empty (p ∷ ps) = false

abbrev pub is_root : SnapshotRecord → Bool
is_root r = is_some_and r.raw.manifest.parents is_empty

module _ ⦃c : Crates⦄ where
  -- `format!("fork/{}", &id.to_hex()[..8])`
  unfoldable pub fork_name : ℕ → Bytes
  fork_name id = ascii "fork/" ++ take 8 (c.hex32 id)

  unfoldable pub write_result : ℕ → Bool → WriteResult
  unfolding fork_name
  write_result id forked = record {
    snapshot_id = id;
    forked = forked;
    fork_label = if forked then some (fork_name id) else none;
  }

  -- A snapshot that the capsule holds already.
  unfoldable pub insert_again :
      Capsule → RawManifest → ℕ → SnapshotRecord → Result (WriteResult × Capsule)
  insert_again s raw now existing = do
    refuse_if (not (existing.raw.bytes == raw.bytes))
        (corrupt "snapshot" "id collision with different bytes")
    let writer = raw.manifest.origin.peer_id
    let forked = is_none_or (active_lease s now) (λ l. not (l.holder == writer))
    ok (write_result raw.id forked, s)

  unfoldable pub insert_new :
      Capsule → RawManifest → Bytes → ℕ → List ℕ → Result (WriteResult × Capsule)
  insert_new s raw at now parents = do
    refuse_if (is_empty parents && any is_root (values s.snapshots))
        (invalid "capsule already has a root snapshot")
    let orphan = any (λ p. not (contains_key s.snapshots p)) parents
    snapshots ←
        resolve_orphans
          (insert s.snapshots raw.id (record { raw = raw; received_at = at; orphan = orphan }))
    let writer = raw.manifest.origin.peer_id
    let s' = record s { snapshots = snapshots }
    let lease_ok = is_some_and (active_lease s' now) (λ l. l.holder == writer)
    ok (write_result raw.id (not lease_ok), s')

  unfoldable pub insert_snapshot :
      Capsule → RawManifest → Bytes → ℕ → Result (WriteResult × Capsule)
  insert_snapshot s raw at now = do
    refuse_if
        (not (is_full raw.manifest.scope)
          || not (is_in raw.manifest.capsule_id s.genesis.capsule_id))
        (invalid "snapshot is not in capsule")
    parents ← ok_or raw.manifest.parents (panic "unwrap on None")
    elim (get s.snapshots raw.id) [
      | some existing ↦ insert_again s raw now existing
      | none ↦ insert_new s raw at now parents
    ]
