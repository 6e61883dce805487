-- ===== src/Shelf/Fork.antt =====
-- `record_fork_label` of crates/abra-core/src/store.rs leaves the label that it wants.
use abra.Crates.{Crates}
use abra.Prelude.{
  ℕ, ◌+◌, ◌^◌, ◌<◌, ◌≡◌, refl, ap, ◌∙◌, Bytes, Bool, true, Option, none, some, ◌==◌, nat_eq,
  bytes_eq, ==_refl, arith, ok, >>=-eq-ok, if◌then◌else◌,
}
use abra.Prelude.Map.{Map, get, insert, get-insert_self}
use abra.Identity.{Identity, peer_id}
use abra.Capsule.LabelOp
use abra.Capsule.LabelOp.{LabelOp}
use abra.Capsule.State.{Capsule, label, winning_lease}
use abra.Capsule.Label
use abra.Capsule.Label.{loses}
use abra.Capsule.Label.Applied.{newer, apply_label-newer}
use abra.Capsule.Snapshot.{fork_name}
use abra.Shelf.{AbraStore, stage, seq_of, epoch_of, fork_op, write_op, record_fork_label}

-- The next `seq` of a label is in the range of a `u64`.
abbrev pub HasNextSeq : Option LabelOp → Type 0
HasNextSeq none = Unit {0}
HasNextSeq (some old) = old.seq + 1 < 2 ^ 64

newer-seq_of :
    (old : Option LabelOp) (op : LabelOp)
    → op.seq ≡ seq_of old
    → HasNextSeq old
    → newer old op ≡ some op
unfolding loses
newer-seq_of none op e fits = refl
newer-seq_of (some old) op e fits = ground arith

written-at :
    (m : Map Bytes LabelOp) (name : Bytes) (op : LabelOp) (x y : Option LabelOp)
    → x ≡ (if op.name == name then newer (get m op.name) op else y)
    → op.name ≡ name
    → newer (get m name) op ≡ some op
    → x ≡ some op
written-at m name op x y h same newest =
    let at : newer (get m op.name) op ≡ some op =
      ap (λ (k : Bytes). newer (get m k) op) same ∙ newest in
    let self : (op.name == name) ≡ true = ap (λ (k : Bytes). k == name) same ∙ ==_refl name in
    h ∙ ap (λ (b : Bool). if b then newer (get m op.name) op else y) self ∙ at

module _ ⦃c : Crates⦄ where
  created-fields :
      (id seq : ℕ) (name : Bytes) (snapshot_id epoch : ℕ) (at : Bytes) (signer : Identity)
      (op : LabelOp)
      → LabelOp.create id seq name snapshot_id epoch at signer ≡ ok op
      → (op.seq ≡ seq) × (op.name ≡ name) × (op.snapshot_id ≡ snapshot_id)
  unfolding LabelOp.create
  created-fields id seq name snapshot_id epoch at signer op h = ground arith

  -- An op whose `seq` is the next one of its label wins.
  pub next_op-wins :
      (staged : Capsule) (id snapshot_id epoch : ℕ) (name at : Bytes) (signer : Identity) (now : ℕ)
      (op : LabelOp) (done : Bool × Capsule)
      → LabelOp.create id (seq_of (get staged.labels name)) name snapshot_id epoch at signer ≡ ok op
      → Label.apply_label staged op (peer_id signer) now ≡ ok done
      → HasNextSeq (get staged.labels name)
      → (get done.1.labels name ≡ some op) × (op.name ≡ name) × (op.snapshot_id ≡ snapshot_id)
  next_op-wins staged id snapshot_id epoch name at signer now op done made applied fits =
      let (seq, named, target) =
        created-fields id (seq_of (get staged.labels name)) name snapshot_id epoch at signer op
          made in
      let (labels, wins, others) =
        apply_label-newer staged op (peer_id signer) now done.0 done.1 applied in
      let newest = newer-seq_of (get staged.labels name) op seq fits in
      (
        written-at staged.labels name op (get done.1.labels name) (get staged.labels name)
            (labels name) named newest,
        named,
        target,
      )

  -- Where `record_fork_label` succeeds, the stored capsule's fork label of the snapshot points to it,
  -- whatever the label was before, given that its `seq` has a next one.
  pub record_fork_label-label :
      (id snapshot_id : ℕ) (at : Bytes) (signer : Identity) (now : ℕ) (s s' : AbraStore)
      (before : Capsule)
      → get s.capsules id ≡ some before
      → HasNextSeq (get before.labels (fork_name snapshot_id))
      → record_fork_label id snapshot_id at signer now s ≡ ok s'
      → (after : Capsule) × (op : LabelOp) × (get s'.capsules id ≡ some after)
        × (get after.labels (fork_name snapshot_id) ≡ some op)
        × (op.snapshot_id ≡ snapshot_id)
  unfolding record_fork_label stage fork_op label
  record_fork_label-label id snapshot_id at signer now s s' before held fits h =
      let (staged, found, h1) = >>=-eq-ok (stage id s) _ h in
      let (op, made, h2) = >>=-eq-ok (fork_op id snapshot_id at signer staged) _ h1 in
      let (done, applied, h3) = >>=-eq-ok (Label.apply_label staged op (peer_id signer) now) _ h2 in
      let (files, written, h4) = >>=-eq-ok (write_op id op s.files) _ h3 in
      let name = fork_name snapshot_id in
      let same : staged ≡ before = ground arith in
      let next : HasNextSeq (get staged.labels name) = rw same fits in
      let (wins, named, target) =
        next_op-wins staged id snapshot_id (epoch_of (winning_lease staged)) name at signer now op
          done made applied next in
      let capsules : s'.capsules ≡ insert s.capsules id done.1 = ground arith in
      (
        done.1,
        op,
        ap (λ (m : Map ℕ Capsule). get m id) capsules ∙ get-insert_self s.capsules id done.1,
        wins,
        target,
      )
