-- ===== src/Examples/Shelves.antt =====
-- A shelf with one capsule (crates/abra-core/src/store.rs): the tests of the theorems on shelves.
use abra.Examples.Toy.{toy, anyone, label_op, label_code}
use abra.Examples.Leases.{low}
use abra.Examples.History.{both, noon}
use abra.Prelude.{
  ◌≡◌, refl, nat_eq, bytes_eq, ascii, Bytes, Bool, true, some, [], ◌∷◌, ok, err, Result,
}
use abra.Prelude.Map.{get, insert}
use abra.Identity.{Identity, sign, peer_id}
use abra.Capsule.LeaseRecord.{LeaseRecord}
use abra.Capsule.LeaseRecord
use abra.Capsule.LabelOp
use abra.Capsule.LabelOp.{LabelOp}
use abra.Capsule.State.{Capsule, winning_lease, label}
use abra.Net.Time.{pad}
use abra.Prelude.BigEndian.{to_be_bytes}
use abra.Shelf.{
  AbraStore, stage, lease_path, label_path, capsule_dir, write_lease, write_leases, write_op,
  write_won, adopt_leases, adopt_label, is_adopted, adopt_capsule_state, fork_op, record_fork_label,
}
use abra.Shelf.Adopt.{Adopted, adopt_capsule_state-Adopted}

abbrev store_of : Result (Bool × AbraStore) → AbraStore
store_of (ok (b, s)) = s
store_of (err e) = record { capsules = []; files = [] }

abbrev shelf : Capsule → AbraStore
shelf s = record { capsules = (77, s) ∷ []; files = [] }

-- A label that points to the first snapshot.
abbrev tag : LabelOp
tag = label_op (ascii "v1") 1 1 1005

abbrev adopted : AbraStore
adopted = store_of (adopt_capsule_state 77 (low ∷ []) (some tag) anyone 0 (shelf both))

adopts : adopt_capsule_state 77 (low ∷ []) (some tag) anyone 0 (shelf both) ≡ ok (true, adopted)
unfolding label_code adopt_capsule_state stage adopt_leases adopt_label write_leases write_lease
    write_won write_op is_adopted label lease_path label_path capsule_dir LeaseRecord.bytes
    LeaseRecord.hash LabelOp.bytes pad to_be_bytes get insert
adopts = refl

adopt_capsule_state-Adopted_example :
    Adopted anyone 77 (low ∷ []) (some tag) 0 (shelf both) true adopted
adopt_capsule_state-Adopted_example =
    adopt_capsule_state-Adopted anyone 77 (low ∷ []) (some tag) 0 (shelf both) true adopted adopts

abbrev or_shelf : Result AbraStore → AbraStore
or_shelf (ok s) = s
or_shelf (err e) = shelf both

abbrev signer : Identity
signer = record { signing = 5 }

abbrev now_text : Bytes
now_text = ascii "2026-01-01T12:00:00.000Z"

abbrev recorded : AbraStore
recorded = or_shelf (record_fork_label 77 2 now_text signer noon (shelf both))

records : record_fork_label 77 2 now_text signer noon (shelf both) ≡ ok recorded
unfolding label_code record_fork_label stage fork_op write_op label_path capsule_dir LabelOp.create
    LabelOp.bytes label winning_lease pad to_be_bytes sign peer_id
records = refl
