-- ===== src/Capsule/Snapshot/History.antt =====
-- The invariant of the snapshots of a capsule, over any sequence of writes.
use abra.Crates.{Crates}
use abra.Prelude.{
  ℕ, ◌+◌, ◌≤◌, ◌≡◌, refl, inl, inr, Bytes, true, false, not, ◌&&◌, none, some, List, [], ◌∷◌, any,
  arith, nat_eq, ok, if◌then◌else◌,
}
use abra.Prelude.Map.{get, insert, contains_key, values, contains_key-insert_old}
use abra.Manifest.Schema.{RawManifest}
use abra.Capsule.State.{Capsule, SnapshotRecord, WriteResult}
use abra.Capsule.Snapshot.{
  Snapshots, parents_of, knows_all, resolve_record, resolve_pass, is_root, is_empty,
  insert_snapshot,
}
use abra.Capsule.Snapshot.Orphans.{
  Exact, Lagging, Exact-Lagging, Exact-SameKeys, resolve_pass-Exact, resolve_pass-SameKeys,
}
use abra.Capsule.Snapshot.Insert.{Inserted, insert_snapshot-Inserted, with_new, resolved}

knows_all_mono :
    (m : Snapshots) (id : ℕ) (r : SnapshotRecord) (ps : List ℕ)
    → knows_all m ps ≡ true
    → knows_all (insert m id r) ps ≡ true
unfolding knows_all
knows_all_mono m id r [] h = refl
knows_all_mono m id r (p ∷ ps) h =
    ground (arith, contains_key-insert_old m id p r, knows_all_mono m id r ps)

Lagging-mono :
    (m k : Snapshots) (id : ℕ) (r : SnapshotRecord) → Lagging m k → Lagging (insert m id r) k
Lagging-mono m [] id r x = tt
Lagging-mono m ((j, q) ∷ k) id r x =
    ((λ e. knows_all_mono m id r (parents_of q) (x.0 e)), Lagging-mono m k id r x.1)

Lagging-insert :
    (known m : Snapshots) (id : ℕ) (r : SnapshotRecord)
    → (r.orphan ≡ false → knows_all known (parents_of r) ≡ true)
    → Lagging known m
    → Lagging known (insert m id r)
unfolding insert
Lagging-insert known [] id r new x = (new, tt)
Lagging-insert known ((j, q) ∷ m) id r new x =
    ground (arith, Lagging-insert known m id r new x.1, x.0)

missing_any :
    (m : Snapshots) (ps : List ℕ) → any (λ p. not (contains_key m p)) ps ≡ not (knows_all m ps)
unfolding knows_all
missing_any m [] = refl
missing_any m (p ∷ ps) = ground (arith, missing_any m ps)

-- Every orphan mark is exact.
abbrev pub IsExact : Capsule → Type 0
IsExact s = Exact s.snapshots s.snapshots

resolved-Exact : (m : Snapshots) → Lagging m m → Exact (resolved m) (resolved m)
resolved-Exact m x =
    Exact-SameKeys m (resolved m) (resolved m) (resolve_pass-SameKeys m m)
      (resolve_pass-Exact m m x)

new_record : Snapshots → RawManifest → Bytes → List ℕ → SnapshotRecord
new_record m raw at ps = record {
  raw = raw;
  received_at = at;
  orphan = any (λ p. not (contains_key m p)) ps;
}

with_new-Lagging :
    (m : Snapshots) (raw : RawManifest) (at : Bytes) (ps : List ℕ)
    → raw.manifest.parents ≡ some ps
    → Lagging m m
    → Lagging (with_new m raw at ps) (with_new m raw at ps)
unfolding new_record
with_new-Lagging m raw at ps e x =
    Lagging-insert _ m raw.id _
      (λ o. ground (arith, missing_any m ps, knows_all_mono m raw.id (new_record m raw at ps) ps))
      (Lagging-mono m m raw.id _ x)

-- At most one root.
abbrev pub roots : Snapshots → ℕ
roots [] = 0
roots ((k, r) ∷ m) = (if is_root r then 1 else 0) + roots m

roots-resolve_pass : (known m : Snapshots) → roots (resolve_pass known m) ≡ roots m
unfolding resolve_pass resolve_record
roots-resolve_pass known [] = refl
roots-resolve_pass known ((k, r) ∷ m) = ground (arith, roots-resolve_pass known m)

roots-insert :
    (m : Snapshots) (id : ℕ) (r : SnapshotRecord)
    → get m id ≡ none
    → roots (insert m id r) ≡ (if is_root r then 1 else 0) + roots m
unfolding insert get
roots-insert [] id r e = refl
roots-insert ((k, q) ∷ m) id r e = ground (arith, roots-insert m id r)

any_root : (m : Snapshots) → any is_root (values m) ≡ false → roots m ≡ 0
any_root [] e = refl
any_root ((k, r) ∷ m) e = ground (arith, any_root m)

pub record IsHistory (s : Capsule) : Type 0 where
  pub exact : IsExact s
  pub one_root : roots s.snapshots ≤ 1

module _ ⦃c : Crates⦄ where
  with_new-roots :
      (m : Snapshots) (raw : RawManifest) (at : Bytes) (ps : List ℕ)
      → get m raw.id ≡ none
      → raw.manifest.parents ≡ some ps
      → (is_empty ps && any is_root (values m)) ≡ false
      → roots m ≤ 1
      → roots (with_new m raw at ps) ≤ 1
  unfolding new_record
  with_new-roots m raw at ps e eps single h =
      ground (arith, roots-insert m raw.id (new_record m raw at ps) e, any_root m)

  -- Every accepted snapshot keeps the marks of the orphans exact: a record is an orphan exactly
  -- while one of its parents is missing. And there is never a second root.
  pub insert_snapshot-IsHistory :
      (s : Capsule) (raw : RawManifest) (at : Bytes) (now : ℕ) (w : WriteResult) (s' : Capsule)
      → IsHistory s
      → insert_snapshot s raw at now ≡ ok (w, s')
      → IsHistory s'
  insert_snapshot-IsHistory s raw at now w s' v h =
      go (insert_snapshot-Inserted s raw at now w s' h).0
    where
      go : Inserted s raw at s' → IsHistory s'
      go (inl (old, e, same, e')) = rw e' v
      go (inr (ps, e, eps, single, e')) =
          let m = with_new s.snapshots raw at ps in
          rw e' (record {
            exact = resolved-Exact m (
                with_new-Lagging s.snapshots raw at ps eps
                  (Exact-Lagging s.snapshots s.snapshots v.exact));
            one_root =
                rw (roots-resolve_pass m m)
                  (with_new-roots s.snapshots raw at ps e eps single v.one_root);
          })
