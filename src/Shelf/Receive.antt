-- ===== src/Shelf/Receive.antt =====
-- `receive_full` of crates/abra-core/src/store.rs, with `validate_kind_with_store` of
-- crates/abra-core/src/manifest.rs.
pub mod Received
use abra.Crates.{Crates}
use abra.Prelude.{
  ℕ, Bytes, ascii, Bool, ◌++◌, Option, none, some, List, [], ◌∷◌, ◌==◌, nat_eq, bytes_eq, not,
  Result, ok, invalid, panic, ◌>>=◌, ◌>>◌, refuse_if, ok_or, if◌then◌else◌,
}
use abra.Prelude.Map.{Map, insert}
use abra.Identity.{Identity, peer_id}
use abra.Canonical.Value.{Value, string, object, field, end, get_field}
use abra.Canonical.Write.{to_vec}
use abra.Manifest.Schema.{Manifest, RawManifest}
use abra.Manifest.Text.{split}
use abra.Manifest.Check.{as_string, workspace_kind}
use abra.Cas.Tree.{Tree, is_tree, find_entry}
use abra.Cas.Store.{Files, get_tree}
use abra.Capsule.Signed.{spec}
use abra.Capsule.LabelOp
use abra.Capsule.LabelOp.{LabelOp}
use abra.Capsule.State.{Capsule, WriteResult, winning_lease, label}
use abra.Capsule.Snapshot.{insert_snapshot}
use abra.Capsule.Label
use abra.Shelf.{AbraStore, capsule_dir, label_path, stage, seq_of, epoch_of, write_op}

-- `payload.get("default_cwd").and_then(Value::as_str)`
abbrev pub text_of : Option Value → Option Bytes
text_of none = none
text_of (some v) = as_string v

module _ ⦃c : Crates⦄ where
  -- The loop over the parts of the path
  unfoldable pub walk_cwd : Files → List Bytes → Tree → Result (Unit {0})
  walk_cwd files [] tree = ok tt
  walk_cwd files (part ∷ parts) tree = do
    entry ←
        ok_or (find_entry tree.entries part) (invalid "workspace default_cwd is missing from tree")
    refuse_if (not (is_tree entry.mode)) (invalid "workspace default_cwd is not a directory")
    next ← get_tree files entry.hash
    walk_cwd files parts next

  unfoldable pub check_cwd : Files → Tree → Option Bytes → Result (Unit {0})
  check_cwd files tree none = ok tt
  check_cwd files tree (some cwd) =
      if cwd == ascii "." then ok tt else walk_cwd files (split b'/' cwd) tree

  unfoldable pub check_files : Manifest → Files → Result (Unit {0})
  check_files m files = do
    root ← ok_or m.files (invalid "workspace lacks files")
    tree ← get_tree files root
    check_cwd files tree (text_of (get_field m.payload (ascii "default_cwd")))

  unfoldable pub validate_kind_with_store : Manifest → Files → Result (Unit {0})
  validate_kind_with_store m files =
      if not (m.kind == workspace_kind) then ok tt else check_files m files

  -- The label of a fork, and the capsule with it
  unfoldable pub make_fork :
      ℕ → ℕ → Bytes → ℕ → WriteResult → Identity → Capsule → Result (Option LabelOp × Capsule)
  make_fork id snapshot_id at now w signer staged = do
    name ← ok_or w.fork_label (panic "fork label")
    op ←
        LabelOp.create id (seq_of (label staged name)) name snapshot_id
          (epoch_of (winning_lease staged)) at signer
    done ← Label.apply_label staged op (peer_id signer) now
    ok (some op, done.1)

  unfoldable pub stage_fork :
      ℕ
      → ℕ
      → Bytes
      → ℕ
      → WriteResult
      → Option Identity
      → Capsule
      → Result (Option LabelOp × Capsule)
  stage_fork id snapshot_id at now w none staged = ok (none, staged)
  stage_fork id snapshot_id at now w (some signer) staged =
      if w.forked then make_fork id snapshot_id at now w signer staged else ok (none, staged)

  unfoldable pub snapshot_path : ℕ → ℕ → Bytes
  snapshot_path id snapshot_id = capsule_dir id ++ (ascii "/snapshots/" ++ c.hex32 snapshot_id)

  -- The bytes of a `SnapshotMeta`
  unfoldable pub meta_bytes : Bytes → Result Bytes
  meta_bytes at =
      to_vec
        (object (field (ascii "received_at") (string at) (field (ascii "spec") (string spec) end)))

  unfoldable pub write_fork : ℕ → Option LabelOp → Map Bytes Bytes → Result (Map Bytes Bytes)
  write_fork id none files = ok files
  write_fork id (some op) files = write_op id op files

  unfoldable pub receive_full :
      Files
      → RawManifest
      → Bytes
      → ℕ
      → Option Identity
      → AbraStore
      → Result (WriteResult × AbraStore)
  receive_full cas raw at now signer s = do
    id ← ok_or raw.manifest.capsule_id (invalid "full manifest lacks capsule id")
    validate_kind_with_store raw.manifest cas
    staged ← stage id s
    done ← insert_snapshot staged raw at now
    forked ← stage_fork id raw.id at now done.0 signer done.1
    meta ← meta_bytes at
    files ← write_fork id forked.0 (
        insert (insert s.files (snapshot_path id raw.id ++ ascii ".cjson") raw.bytes)
          (snapshot_path id raw.id ++ ascii ".meta.cjson") meta)
    ok (done.0, record { capsules = insert s.capsules id forked.1; files = files })
