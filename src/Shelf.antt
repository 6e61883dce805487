-- ===== src/Shelf.antt =====
-- `AbraStore` of crates/abra-core/src/store.rs: the capsules in memory and the files that a restart
-- reads. A capsule is changed as a clone that is put back when all of the operation has succeeded.
-- Writes of files do not fail here.
pub mod Adopt
pub mod Fork
pub mod Receive
use abra.Crates.{Crates}
use abra.Prelude.{
  ℕ, zero, suc, ◌+◌, ◌-◌, ◌%◌, ◌^◌, Bytes, ascii, Bool, true, false, ◌++◌, Option, none, some, List,
  [], ◌∷◌, length, ◌==◌, nat_eq, bytes_eq, is_some_and, not, Result, ok, err, invalid, not_found,
  ◌>>=◌, ◌>>◌, refuse_if, ok_or, if◌then◌else◌,
}
use abra.Prelude.Map.{Map, get, insert}
use abra.Prelude.BigEndian.{to_be_bytes}
use abra.Net.Time.{pad}
use abra.Identity.{Identity, peer_id}
use abra.Capsule.Genesis
use abra.Capsule.Genesis.{Genesis}
use abra.Capsule.LeaseRecord
use abra.Capsule.LeaseRecord.{LeaseRecord, LeaseMode}
use abra.Capsule.LabelOp
use abra.Capsule.LabelOp.{LabelOp}
use abra.Capsule.State.{Capsule, winning_lease, label}
use abra.Capsule.Lease
use abra.Capsule.Label
use abra.Capsule.Snapshot.{fork_name}

pub record AbraStore : Type 0 where
  pub capsules : Map ℕ Capsule
  -- `atomic_write`: the files by their paths below the root
  pub files : Map Bytes Bytes

abbrev pub Authorize : Type 0
Authorize = ℕ → LeaseMode → Bool

abbrev pub seq_of : Option LabelOp → ℕ
seq_of none = 1
seq_of (some old) = (old.seq + 1) % 2 ^ 64

abbrev pub epoch_of : Option LeaseRecord → ℕ
epoch_of none = 0
epoch_of (some lease) = lease.epoch

module _ ⦃c : Crates⦄ where
  unfoldable pub capsule_dir : ℕ → Bytes
  capsule_dir id = ascii "capsules/" ++ c.hex32 id

  -- `{:020}-{}.cjson`
  unfoldable pub lease_path : ℕ → LeaseRecord → Result Bytes
  lease_path id lease = do
    h ← LeaseRecord.hash lease
    ok (
        capsule_dir id
        ++ (ascii "/leases/" ++ (pad 20 lease.epoch ++ (b'-' ∷ (c.hex32 h ++ ascii ".cjson")))))

  unfoldable pub label_path : ℕ → LabelOp → Bytes
  label_path id op =
      capsule_dir id
      ++ (ascii "/labels/"
          ++ (pad 20 op.seq
              ++ (b'-' ∷ (c.hex32 (c.blake3 (to_be_bytes 64 op.sig)) ++ ascii ".cjson"))))

  unfoldable pub write_lease : ℕ → LeaseRecord → Map Bytes Bytes → Result (Map Bytes Bytes)
  write_lease id lease files = do
    path ← lease_path id lease
    bytes ← LeaseRecord.bytes lease
    ok (insert files path bytes)

  unfoldable pub write_leases : ℕ → List LeaseRecord → Map Bytes Bytes → Result (Map Bytes Bytes)
  write_leases id [] files = ok files
  write_leases id (lease ∷ leases) files = do
    files' ← write_lease id lease files
    write_leases id leases files'

  unfoldable pub write_op : ℕ → LabelOp → Map Bytes Bytes → Result (Map Bytes Bytes)
  write_op id op files = do bytes ← LabelOp.bytes op; ok (insert files (label_path id op) bytes)

  unfoldable pub stage : ℕ → AbraStore → Result Capsule
  stage id s = ok_or (get s.capsules id) (not_found "capsule" "")

  unfoldable pub add_capsule : Genesis → LeaseRecord → AbraStore → Result AbraStore
  add_capsule g grant s = do
    capsule ← Lease.create g grant
    genesis ← Genesis.bytes g
    files ←
        write_lease g.capsule_id grant
          (insert s.files (capsule_dir g.capsule_id ++ ascii "/genesis.cjson") genesis)
    ok (record { capsules = insert s.capsules g.capsule_id capsule; files = files })

  unfoldable pub accept_lease : ℕ → LeaseRecord → Authorize → AbraStore → Result (Bool × AbraStore)
  accept_lease id r authorize s = do
    staged ← stage id s
    done ← Lease.accept_lease staged r authorize
    files ← if done.0 then write_lease id r s.files else ok s.files
    ok (done.0, record { capsules = insert s.capsules id done.1; files = files })

  unfoldable pub apply_label : LabelOp → ℕ → ℕ → AbraStore → Result (Bool × AbraStore)
  apply_label op caller now s = do
    staged ← stage op.capsule_id s
    done ← Label.apply_label staged op caller now
    files ← if done.0 then write_op op.capsule_id op s.files else ok s.files
    ok (done.0, record { capsules = insert s.capsules op.capsule_id done.1; files = files })

  -- The loop over the leases of `adopt_capsule_state`
  unfoldable pub adopt_leases : Capsule → List LeaseRecord → Authorize → Result Capsule
  adopt_leases staged [] authorize = ok staged
  adopt_leases staged (r ∷ rs) authorize = do
    done ← Lease.accept_lease staged r authorize
    refuse_if (not done.0) (invalid "lease chain does not extend winner")
    adopt_leases done.1 rs authorize

  unfoldable pub adopt_label : Capsule → Option LabelOp → ℕ → Result (Bool × Capsule)
  adopt_label staged none now = ok (false, staged)
  adopt_label staged (some op) now = Label.apply_label staged op op.by now

  unfoldable pub write_won : ℕ → Option LabelOp → Bool → Map Bytes Bytes → Result (Map Bytes Bytes)
  write_won id none won files = ok files
  write_won id (some op) won files = if won then write_op id op files else ok files

  -- Does the capsule's label point to the op's snapshot?
  unfoldable pub is_adopted : Capsule → Option LabelOp → Bool
  is_adopted capsule none = false
  is_adopted capsule (some op) =
      is_some_and (label capsule op.name) (λ current. current.snapshot_id == op.snapshot_id)

  unfoldable pub adopt_capsule_state :
      ℕ → List LeaseRecord → Option LabelOp → Authorize → ℕ → AbraStore → Result (Bool × AbraStore)
  adopt_capsule_state id leases op authorize now s = do
    staged ← stage id s
    extended ← adopt_leases staged leases authorize
    done ← adopt_label extended op now
    files ← write_leases id leases s.files
    files' ← write_won id op done.0 files
    ok (is_adopted done.1 op, record { capsules = insert s.capsules id done.1; files = files' })

  unfoldable pub fork_op : ℕ → ℕ → Bytes → Identity → Capsule → Result LabelOp
  fork_op id snapshot_id at signer staged =
      LabelOp.create id (seq_of (label staged (fork_name snapshot_id))) (fork_name snapshot_id)
        snapshot_id (epoch_of (winning_lease staged)) at signer

  unfoldable pub record_fork_label : ℕ → ℕ → Bytes → Identity → ℕ → AbraStore → Result AbraStore
  record_fork_label id snapshot_id at signer now s = do
    staged ← stage id s
    op ← fork_op id snapshot_id at signer staged
    done ← Label.apply_label staged op (peer_id signer) now
    files ← write_op id op s.files
    ok (record { capsules = insert s.capsules id done.1; files = files })
