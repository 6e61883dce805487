-- ===== src/Capsule/Snapshot/Insert.antt =====
-- `insert_snapshot` adds to the history and keeps the orphan marks exact.
use abra.Crates.{Crates}
use abra.Prelude.{
  ℕ, ◌≡◌, refl, ◌⊎◌, inl, inr, Bytes, Bool, false, not, ◌&&◌, Option, none, some, List, [], ◌∷◌,
  any, arith, ◌==◌, nat_eq, bytes_eq, is_some_and, Option-cases, ok, list_beq_iff, if◌then◌else◌,
}
use abra.Prelude.Map.{get, insert, contains_key, values, get-insert}
use abra.Manifest.Schema.{RawManifest}
use abra.Capsule.State.{Capsule, SnapshotRecord, WriteResult, active_lease, winning_lease}
use abra.Capsule.Snapshot.{
  Snapshots, resolve_record, resolve_pass, is_root, is_empty, write_result, insert_again,
  insert_new, insert_snapshot,
}
use abra.Capsule.Snapshot.Orphans.{resolve_orphans-total}

-- The map in which the record of `raw` is new, before the orphans are resolved.
abbrev pub with_new : Snapshots → RawManifest → Bytes → List ℕ → Snapshots
with_new m raw at ps =
    insert m raw.id
      (record { raw = raw; received_at = at; orphan = any (λ p. not (contains_key m p)) ps })

abbrev pub resolved : Snapshots → Snapshots
resolved m = resolve_pass m m

module _ ⦃c : Crates⦄ where
  -- The snapshot was there with the same bytes, or it is new; then it is no second root.
  abbrev pub Inserted : Capsule → RawManifest → Bytes → Capsule → Type 0
  Inserted s raw at s' =
      ((old : SnapshotRecord) × (get s.snapshots raw.id ≡ some old)
        × (old.raw.bytes ≡ raw.bytes)
        × (s' ≡ s))
      ⊎ ((ps : List ℕ) × (get s.snapshots raw.id ≡ none)
          × (raw.manifest.parents ≡ some ps)
          × ((is_empty ps && any is_root (values s.snapshots)) ≡ false)
          × (s' ≡ record s { snapshots = resolved (with_new s.snapshots raw at ps) }))

  again-Inserted :
      (s : Capsule) (raw : RawManifest) (now : ℕ) (old : SnapshotRecord) (w : WriteResult)
      (s' : Capsule)
      → insert_again s raw now old ≡ ok (w, s')
      → (old.raw.bytes ≡ raw.bytes)
        × (s' ≡ s)
        × (w.forked
            ≡ not (is_some_and (active_lease s now) (λ l. l.holder == raw.manifest.origin.peer_id)))
  unfolding insert_again write_result
  again-Inserted s raw now old w s' h = ground (arith, list_beq_iff old.raw.bytes raw.bytes)

  new-Inserted :
      (s : Capsule) (raw : RawManifest) (at : Bytes) (now : ℕ) (ps : List ℕ) (w : WriteResult)
      (s' : Capsule)
      → insert_new s raw at now ps ≡ ok (w, s')
      → ((is_empty ps && any is_root (values s.snapshots)) ≡ false)
        × (s' ≡ record s { snapshots = resolved (with_new s.snapshots raw at ps) })
        × (w.forked
            ≡ not (is_some_and (active_lease s now) (λ l. l.holder == raw.manifest.origin.peer_id)))
  unfolding insert_new write_result active_lease winning_lease
  new-Inserted s raw at now ps w s' h =
      ground (arith, resolve_orphans-total (with_new s.snapshots raw at ps))

  -- The writer held the active lease.
  abbrev pub holds_lease : Capsule → RawManifest → ℕ → Bool
  holds_lease s raw now =
      is_some_and (active_lease s now) (λ l. l.holder == raw.manifest.origin.peer_id)

  -- A snapshot that is accepted is added, or was there with the same bytes, and the write forks
  -- exactly if its writer does not hold the active lease.
  pub insert_snapshot-Inserted :
      (s : Capsule) (raw : RawManifest) (at : Bytes) (now : ℕ) (w : WriteResult) (s' : Capsule)
      → insert_snapshot s raw at now ≡ ok (w, s')
      → Inserted s raw at s' × (w.forked ≡ not (holds_lease s raw now))
  unfolding insert_snapshot
  insert_snapshot-Inserted s raw at now w s' h = elim (Option-cases (get s.snapshots raw.id)) [
    | inl e ↦ elim (Option-cases raw.manifest.parents) [
      | inl none_left ↦ ground arith
      | inr (ps, eps) ↦
          let (root, e', f) = new-Inserted s raw at now ps w s' (ground arith) in
          (inr (ps, e, eps, root, e'), f)
    ]
    | inr (old, e) ↦
        let (same, e', f) = again-Inserted s raw now old w s' (ground arith) in
        (inl (old, e, same, e'), f)
  ]

-- What a capsule shows of its history: the bytes of each snapshot.
abbrev pub bytes_in : Option SnapshotRecord → Option Bytes
bytes_in none = none
bytes_in (some r) = some r.raw.bytes

abbrev pub bytes_at : Snapshots → ℕ → Option Bytes
bytes_at m k = bytes_in (get m k)

bytes_at-resolve_pass :
    (known m : Snapshots) (k : ℕ) → bytes_at (resolve_pass known m) k ≡ bytes_at m k
unfolding get resolve_pass resolve_record
bytes_at-resolve_pass known [] k = refl
bytes_at-resolve_pass known ((j, r) ∷ m) k = ground (arith, bytes_at-resolve_pass known m k)

module _ ⦃c : Crates⦄ where
  -- The history only grows: afterwards the snapshot's id has its bytes, and every other id has what
  -- it had.
  pub insert_snapshot-bytes_at :
      (s : Capsule) (raw : RawManifest) (at : Bytes) (now : ℕ) (w : WriteResult) (s' : Capsule)
      (k : ℕ)
      → insert_snapshot s raw at now ≡ ok (w, s')
      → bytes_at s'.snapshots k ≡ (if raw.id == k then some raw.bytes else bytes_at s.snapshots k)
  insert_snapshot-bytes_at s raw at now w s' k h =
      go (insert_snapshot-Inserted s raw at now w s' h).0
    where
      go :
          Inserted s raw at s'
          → bytes_at s'.snapshots k
            ≡ (if raw.id == k then some raw.bytes else bytes_at s.snapshots k)
      go (inl (old, e, same, e')) = ground arith
      go (inr (ps, e, eps, root, e')) = ground (
        arith,
        bytes_at-resolve_pass (with_new s.snapshots raw at ps) (with_new s.snapshots raw at ps) k,
        get-insert s.snapshots raw.id k (record {
          raw = raw;
          received_at = at;
          orphan = any (λ p. not (contains_key s.snapshots p)) ps;
        }),
      )
