-- ===== src/Examples/History.antt =====
-- Snapshots and labels: a child that arrives before its parent, and moves of `main`.
use abra.Prelude.{
  ℕ, ◌≡◌, refl, inr, ascii, Bool, true, false, some, none, [], ◌∷◌, arith, nat_eq, bytes_eq, ok,
  err, invalid,
}
use abra.Prelude.Map.{get}
use abra.Capsule.LeaseRecord.{LeaseMode}
use abra.Capsule.LabelOp.{LabelOp}
use abra.Capsule.State.{Capsule, WriteResult}
use abra.Capsule.Snapshot.{insert_snapshot, resolve_orphans, resolve_pass}
use abra.Capsule.Snapshot.Orphans.{resolve_orphans-total}
use abra.Capsule.Snapshot.History.{IsHistory, insert_snapshot-IsHistory}
use abra.Capsule.Ancestry.{descends_from, descends}
use abra.Capsule.Ancestry.Fuel.{descends-total}
use abra.Capsule.Ancestry.Search.{Descends, descends_from-Descends}
use abra.Capsule.Label.{main, apply_label}
use abra.Capsule.Label.Order.{apply_label_confluent}
use abra.Capsule.Label.Main.{MayMove, Forward, apply_label-main}
use abra.Capsule.Label.Limits.{IsLimited, run_labels, run_labels-IsLimited}
use abra.Examples.Toy.{toy, empty, lease, raw, stored, label_op, snapshot_code, label_code}

-- A capsule whose lease ends on 2 January 2026, with a child whose parent is missing.
abbrev child_first : Capsule
child_first = record empty {
  leases = lease 5 1 LeaseMode.grant 194945 1005 ∷ [];
  winner = some 0;
  snapshots = (2, stored 2 5 (1 ∷ []) true) ∷ [];
}

abbrev pub both : Capsule
both = record child_first {
  snapshots = (2, stored 2 5 (1 ∷ []) false) ∷ (1, stored 1 5 [] false) ∷ [];
}

-- 1 January 2026, at noon
abbrev pub noon : ℕ
noon = 1767268800000

abbrev written : WriteResult
written = record { snapshot_id = 1; forked = false; fork_label = none }

parent_arrives : insert_snapshot child_first (raw 1 5 []) (ascii "now") noon ≡ ok (written, both)
unfolding snapshot_code
parent_arrives = refl

child_first-IsHistory : IsHistory child_first
unfolding snapshot_code
child_first-IsHistory = record { exact = (refl, tt); one_root = omega arith }

insert_snapshot-IsHistory_example : IsHistory both
insert_snapshot-IsHistory_example =
    insert_snapshot-IsHistory child_first (raw 1 5 []) (ascii "now") noon written both
      child_first-IsHistory parent_arrives

descends_from-Descends_example :
    (descends_from both 2 1 ≡ true → Descends both.snapshots 2 1)
    × (Descends both.snapshots 2 1 → descends_from both 2 1 ≡ true)
descends_from-Descends_example = descends_from-Descends both 2 1

abbrev at_root : LabelOp
at_root = label_op main 1 1 1005

abbrev at_child : LabelOp
at_child = label_op main 2 2 1005

abbrev main_at : LabelOp → Capsule
main_at op = record both { labels = (main, op) ∷ [] }

main_set : apply_label both at_root 5 noon ≡ ok (true, main_at at_root)
unfolding label_code
main_set = refl

main_moves : apply_label (main_at at_root) at_child 5 noon ≡ ok (true, main_at at_child)
unfolding label_code
main_moves = refl

main_back :
    apply_label (main_at at_child) (label_op main 3 1 1005) 5 noon
    ≡ err (invalid "main move does not descend from current head")
unfolding label_code
main_back = refl

apply_label-main_example :
    MayMove (main_at at_root) at_child noon × Forward (main_at at_root) at_child
apply_label-main_example =
    apply_label-main (main_at at_root) at_child 5 noon (main_at at_child) refl main_moves

abbrev low : LabelOp
low = label_op (ascii "v1") 1 1 1005

abbrev high : LabelOp
high = label_op (ascii "v1") 1 2 2005

abbrev tagged : LabelOp → Capsule
tagged op = record both { labels = (ascii "v1", op) ∷ [] }

low_first : apply_label both low 5 0 ≡ ok (true, tagged low)
unfolding label_code
low_first = refl

high_second : apply_label (tagged low) high 5 0 ≡ ok (true, tagged high)
unfolding label_code
high_second = refl

high_first : apply_label both high 5 0 ≡ ok (true, tagged high)
unfolding label_code
high_first = refl

low_second : apply_label (tagged high) low 5 0 ≡ ok (false, tagged high)
unfolding label_code
low_second = refl

apply_label_confluent_example :
    get (tagged high).labels (ascii "v1") ≡ get (tagged high).labels (ascii "v1")
apply_label_confluent_example =
    apply_label_confluent both (tagged low) (tagged high) (tagged high) (tagged high) low high 5 5 0
      0 true true true false (inr (λ e. omega arith)) low_first high_second high_first low_second
      (ascii "v1")

both-IsLimited : IsLimited both
unfolding label_code
both-IsLimited = record { labels = omega arith; forks = λ by. omega arith; counted = refl }

run_labels-IsLimited_example :
    IsLimited (run_labels both (record { op = low; caller = 5; now = 0 } ∷ []))
run_labels-IsLimited_example =
    run_labels-IsLimited both (record { op = low; caller = 5; now = 0 } ∷ []) both-IsLimited

resolve_orphans-total_example :
    resolve_orphans child_first.snapshots
    ≡ ok (resolve_pass child_first.snapshots child_first.snapshots)
resolve_orphans-total_example = resolve_orphans-total child_first.snapshots

descends-total_example : (b : Bool) × (descends both.snapshots 2 1 ≡ some b)
descends-total_example = descends-total both.snapshots 2 1
