-- ===== src/Examples/Arrivals.antt =====
-- A snapshot of a device without the lease arrives (crates/abra-core/src/store.rs): the test of the
-- theorem on `receive_full`.
use abra.Examples.Toy.{toy, snapshot_code, label_code}
use abra.Examples.Toy
use abra.Examples.History.{both, noon}
use abra.Prelude.{
  ◌≡◌, refl, nat_eq, bytes_eq, list_beq, ascii, Bytes, none, some, [], ◌∷◌, ok, err, true, Result,
}
use abra.Prelude.Map.{get, insert}
use abra.Prelude.BigEndian.{to_be_bytes}
use abra.Identity.{Identity, sign, peer_id}
use abra.Manifest.Schema.{RawManifest}
use abra.Cas.Tree.{
  magic, new_tree, check_names, has_duplicate, sort_entries, decode, decode_entries, same_names,
}
use abra.Cas.Store
use abra.Cas.Store.{Files, get_tree}
use abra.Capsule.LabelOp
use abra.Capsule.State.{WriteResult, winning_lease, label}
use abra.Net.Time.{pad}
use abra.Canonical.Value.{get_field}
use abra.Canonical.Write.{to_vec}
use abra.Shelf.{AbraStore, stage, label_path, capsule_dir, write_op}
use abra.Shelf.Receive.{
  walk_cwd, check_cwd, check_files, validate_kind_with_store, make_fork, stage_fork, snapshot_path,
  meta_bytes, write_fork, receive_full,
}
use abra.Shelf.Receive.Received.{Received, receive_full-Received}

abbrev cas : Files
cas = (toy.blake3 magic, magic) ∷ []

abbrev shelf : AbraStore
shelf = record { capsules = (77, both) ∷ []; files = [] }

-- A snapshot by the device 6, where 5 holds the lease
abbrev arrival : RawManifest
arrival =
    let r = Toy.raw 3 6 (1 ∷ []) in
    record r { manifest = record r.manifest { files = some (toy.blake3 magic) } }

abbrev signer : Identity
signer = record { signing = 5 }

abbrev now_text : Bytes
now_text = ascii "2026-01-01T12:00:00.000Z"

abbrev result_of : Result (WriteResult × AbraStore) → WriteResult × AbraStore
result_of (ok r) = r
result_of (err e) = (record { snapshot_id = 0; forked = true; fork_label = none }, shelf)

abbrev received : WriteResult × AbraStore
received = result_of (receive_full cas arrival now_text noon (some signer) shelf)

-- All that a call of `receive_full` runs.
unfoldable receive_code : Unit {0}
unfolding label_code receive_full validate_kind_with_store check_files check_cwd walk_cwd get_tree
    Store.get decode decode_entries same_names new_tree check_names has_duplicate sort_entries stage
    make_fork stage_fork snapshot_path meta_bytes write_fork write_op label_path capsule_dir to_vec
    LabelOp.create LabelOp.bytes label winning_lease pad to_be_bytes sign peer_id list_beq get_field
    get insert
receive_code = tt

receives : receive_full cas arrival now_text noon (some signer) shelf ≡ ok received
unfolding receive_code
receives = refl

shelf_both : get shelf.capsules 77 ≡ some both
unfolding get
shelf_both = refl

receive_full-Received_example :
    Received 77 arrival noon (some signer) both shelf received.1 received.0
unfolding get
receive_full-Received_example =
    receive_full-Received cas arrival now_text noon (some signer) shelf received.1 received.0 77
      both refl shelf_both tt receives

forks : received.0.forked ≡ true
unfolding receive_code
forks = refl
