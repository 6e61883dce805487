-- ===== src/Shelf/Receive/Received.antt =====
-- What `receive_full` of crates/abra-core/src/store.rs leaves.
use abra.Crates.{Crates}
use abra.Prelude.{
  ℕ, ◌≡◌, ◌⊎◌, inl, inr, refl, sym, ap, ◌∙◌, Bytes, false, not, Option, none, some, ◌==◌, list_beq,
  nat_eq, bytes_eq, arith, ok, >>=-eq-ok, >>-parts, ok_or, panic, Bool-cases, Option-cases,
  if◌then◌else◌,
}
use abra.Prelude.Map.{Map, get, insert, get-insert, get-insert_self}
use abra.Identity.{Identity, peer_id}
use abra.Manifest.Schema.{RawManifest}
use abra.Cas.Store.{Files}
use abra.Capsule.LabelOp
use abra.Capsule.LabelOp.{LabelOp}
use abra.Capsule.State.{Capsule, WriteResult, winning_lease, label}
use abra.Capsule.Snapshot.{fork_name, write_result, insert_again, insert_new, insert_snapshot}
use abra.Capsule.Snapshot.Insert.{
  Inserted, holds_lease, bytes_at, insert_snapshot-Inserted, insert_snapshot-bytes_at,
}
use abra.Capsule.Label
use abra.Capsule.Label.{main}
use abra.Capsule.Label.Applied.{apply_label-newer}
use mathlib.Core.Path.{subst}
use abra.Shelf.{AbraStore, stage, seq_of, epoch_of}
use abra.Shelf.Fork.{HasNextSeq, next_op-wins}
use abra.Shelf.Receive.{
  validate_kind_with_store, make_fork, stage_fork, meta_bytes, write_fork, receive_full,
}

module _ ⦃c : Crates⦄ where
  Inserted-labels :
      (s : Capsule) (raw : RawManifest) (at : Bytes) (s' : Capsule)
      → Inserted s raw at s'
      → s'.labels ≡ s.labels
  Inserted-labels s raw at s' (inl (old, e, same, e')) = ap (λ (x : Capsule). x.labels) e'
  Inserted-labels s raw at s' (inr (ps, e, eps, root, e')) = ap (λ (x : Capsule). x.labels) e'

  -- A write that forks names its label.
  insert_snapshot-fork_label :
      (s : Capsule) (raw : RawManifest) (at : Bytes) (now : ℕ) (w : WriteResult) (s' : Capsule)
      → insert_snapshot s raw at now ≡ ok (w, s')
      → w.fork_label ≡ (if w.forked then some (fork_name raw.id) else none)
  unfolding insert_snapshot insert_again insert_new write_result fork_name
  insert_snapshot-fork_label s raw at now w s' h = elim (Option-cases (get s.snapshots raw.id)) [
    | inl e ↦ ground arith
    | inr (old, e) ↦ ground arith
  ]

  fork_name-main : (id : ℕ) → (fork_name id == main) ≡ false
  unfolding fork_name list_beq
  fork_name-main id = refl

  -- The fork's label points to the snapshot.
  abbrev pub IsLabelled : Capsule → ℕ → Type 0
  IsLabelled after id =
      (op : LabelOp) × (get after.labels (fork_name id) ≡ some op) × (op.snapshot_id ≡ id)

  -- What staging a fork's label leaves alone, and the label.
  pub record Staged (w : WriteResult) (id : ℕ) (signer : Option Identity) (s s' : Capsule)
      : Type 0 where
    pub snapshots : s'.snapshots ≡ s.snapshots
    pub main_kept : get s'.labels main ≡ get s.labels main
    pub fork : (w.forked ≡ false) ⊎ ((signer ≡ none) ⊎ IsLabelled s' id)

  forked-Staged :
      (id snapshot_id : ℕ) (at : Bytes) (now : ℕ) (w : WriteResult) (signer : Identity)
      (s s' : Capsule) (op : Option LabelOp)
      → w.fork_label ≡ some (fork_name snapshot_id)
      → HasNextSeq (get s.labels (fork_name snapshot_id))
      → make_fork id snapshot_id at now w signer s ≡ ok (op, s')
      → Staged w snapshot_id (some signer) s s'
  unfolding make_fork label
  forked-Staged id snapshot_id at now w signer s s' op named fits h =
      let name = fork_name snapshot_id in
      let (name', found, h0) = >>=-eq-ok (ok_or w.fork_label (panic "fork label")) _ h in
      let same : name' ≡ name = ground (arith, named, found) in
      let (op', made, h1) =
        >>=-eq-ok
          (LabelOp.create id (seq_of (get s.labels name')) name' snapshot_id
            (epoch_of (winning_lease s)) at signer)
          _ h0 in
      let (done, applied, h2) = >>=-eq-ok (Label.apply_label s op' (peer_id signer) now) _ h1 in
      let next : HasNextSeq (get s.labels name') = rw same fits in
      let (wins, at_name, target) =
        next_op-wins s id snapshot_id (epoch_of (winning_lease s)) name' at signer now op' done made
          applied next in
      let (labels, won, others) =
        apply_label-newer s op' (peer_id signer) now done.0 done.1 applied in
      let end : done.1 ≡ s' = ground (arith, h2) in
      let away : (op'.name == main) ≡ false =
        ap (λ (k : Bytes). k == main) (at_name ∙ same) ∙ fork_name-main snapshot_id in
      record {
        snapshots = ap (λ (x : Capsule). x.snapshots) (sym end) ∙ others.snapshots;
        main_kept =
            ap (λ (x : Capsule). get x.labels main) (sym end)
            ∙ (labels main ∙ ground (arith, away));
        fork = inr (
            inr (
              op',
              ap (λ (x : Capsule). get x.labels name) (sym end)
                  ∙ (ap (λ (k : Bytes). get done.1.labels k) (sym same) ∙ wins),
              target,
            ));
      }

  stage_fork-Staged :
      (id snapshot_id : ℕ) (at : Bytes) (now : ℕ) (w : WriteResult) (signer : Option Identity)
      (s s' : Capsule) (op : Option LabelOp)
      → w.fork_label ≡ (if w.forked then some (fork_name snapshot_id) else none)
      → HasNextSeq (get s.labels (fork_name snapshot_id))
      → stage_fork id snapshot_id at now w signer s ≡ ok (op, s')
      → Staged w snapshot_id signer s s'
  unfolding stage_fork
  stage_fork-Staged id snapshot_id at now w none s s' op named fits h = record {
    snapshots = ground (arith, h);
    main_kept = ground (arith, h);
    fork = inr (inl refl);
  }
  stage_fork-Staged id snapshot_id at now w (some signer) s s' op named fits h =
      elim (Bool-cases w.forked) [
        | inr straight ↦ record {
          snapshots = ground (arith, h, straight);
          main_kept = ground (arith, h, straight);
          fork = inl straight;
        }
        | inl forked ↦
            forked-Staged id snapshot_id at now w signer s s' op (ground (arith, named, forked))
              fits (ground (arith, h, forked))
      ]

  pub record Received (id : ℕ) (raw : RawManifest) (now : ℕ) (signer : Option Identity)
      (before : Capsule) (s s' : AbraStore) (w : WriteResult) : Type 0 where
    pub after : Capsule
    pub stored : get s'.capsules id ≡ some after
    pub bytes :
        (k : ℕ)
        → bytes_at after.snapshots k
          ≡ (if raw.id == k then some raw.bytes else bytes_at before.snapshots k)
    pub main_kept : get after.labels main ≡ get before.labels main
    pub forks : w.forked ≡ not (holds_lease before raw now)
    pub fork : (w.forked ≡ false) ⊎ ((signer ≡ none) ⊎ IsLabelled after raw.id)
    pub others : (j : ℕ) → (id == j) ≡ false → get s'.capsules j ≡ get s.capsules j

  staged-Received :
      (id : ℕ) (raw : RawManifest) (at : Bytes) (now : ℕ) (signer : Option Identity)
      (before inserted after : Capsule) (s s' : AbraStore) (w : WriteResult) (op : Option LabelOp)
      → HasNextSeq (get before.labels (fork_name raw.id))
      → insert_snapshot before raw at now ≡ ok (w, inserted)
      → stage_fork id raw.id at now w signer inserted ≡ ok (op, after)
      → s'.capsules ≡ insert s.capsules id after
      → Received id raw now signer before s s' w
  staged-Received id raw at now signer before inserted after s s' w op fits added forked kept =
      let (new, forks) = insert_snapshot-Inserted before raw at now w inserted added in
      let labels = Inserted-labels before raw at inserted new in
      let next : HasNextSeq (get inserted.labels (fork_name raw.id)) = rw labels fits in
      let named = insert_snapshot-fork_label before raw at now w inserted added in
      let staged =
        stage_fork-Staged id raw.id at now w signer inserted after op named next forked in
      record {
        after = after;
        stored = ap (λ (m : Map ℕ Capsule). get m id) kept ∙ get-insert_self s.capsules id after;
        bytes = λ k.
            ap (λ m. bytes_at m k) staged.snapshots
            ∙ insert_snapshot-bytes_at before raw at now w inserted k added;
        main_kept = staged.main_kept ∙ ap (λ m. get m main) labels;
        forks = forks;
        fork = staged.fork;
        others = λ j other.
            ap (λ (m : Map ℕ Capsule). get m j) kept
            ∙ (get-insert s.capsules id j after ∙ ground (arith, other));
      }

  -- Where `receive_full` succeeds, the stored capsule has the snapshot with its bytes, and every other
  -- snapshot as before; main stays where it was, and the other capsules as they were. The write forks
  -- exactly if the writer does not hold the active lease; if it does and a signer is given, the fork's
  -- label points to the snapshot, given that the `seq` of a label of that name has a next one.
  pub receive_full-Received :
      (cas : Files) (raw : RawManifest) (at : Bytes) (now : ℕ) (signer : Option Identity)
      (s s' : AbraStore) (w : WriteResult) (id : ℕ) (before : Capsule)
      → raw.manifest.capsule_id ≡ some id
      → get s.capsules id ≡ some before
      → HasNextSeq (get before.labels (fork_name raw.id))
      → receive_full cas raw at now signer s ≡ ok (w, s')
      → Received id raw now signer before s s' w
  unfolding receive_full stage
  receive_full-Received cas raw at now signer s s' w id before of held fits h =
      let (id', named, h0) = >>=-eq-ok (ok_or raw.manifest.capsule_id _) _ h in
      let (valid, h1) = >>-parts (validate_kind_with_store raw.manifest cas) _ h0 in
      let (staged, found, h2) = >>=-eq-ok (stage id' s) _ h1 in
      let (done, added, h3) = >>=-eq-ok (insert_snapshot staged raw at now) _ h2 in
      let (forked, labelled, h4) =
        >>=-eq-ok (stage_fork id' raw.id at now done.0 signer done.1) _ h3 in
      let (meta, coded, h5) = >>=-eq-ok (meta_bytes at) _ h4 in
      let (files, written, h6) = >>=-eq-ok (write_fork id' forked.0 _) _ h5 in
      let same_id : id' ≡ id = ground (arith, named, of) in
      let same : staged ≡ before = ground (arith, found, held, same_id) in
      let result : done.0 ≡ w = ground (arith, h6) in
      let kept : s'.capsules ≡ insert s.capsules id' forked.1 = ground (arith, h6) in
      let here =
        staged-Received id' raw at now signer staged done.1 forked.1 s s' done.0 forked.0
          (rw same fits) added labelled kept in
      subst (λ w'. Received id raw now signer before s s' w') result
        (subst (λ b. Received id raw now signer b s s' done.0) same
          (subst (λ i. Received i raw now signer staged s s' done.0) same_id here))
