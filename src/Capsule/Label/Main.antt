-- ===== src/Capsule/Label/Main.antt =====
-- The label `main`: only the holder of the active lease moves it, and only forward.
use abra.Crates.{Crates}
use abra.Prelude.{
  ℕ, ◌≡◌, inl, inr, true, false, some, arith, nat_eq, bytes_eq, list_beq_iff, Option-cases, ok,
}
use abra.Prelude.Map.{get}
use abra.Capsule.LabelOp.{LabelOp}
use abra.Capsule.LeaseRecord.{LeaseRecord}
use abra.Capsule.State.{Capsule, SnapshotRecord, active_lease}
use abra.Capsule.Ancestry.{descends_from}
use abra.Capsule.Label.{main, wins, check_main, check_name, apply_label}
use abra.Capsule.Label.Applied.{applied}

-- What a move of `main` by `op` needs.
pub record MayMove (s : Capsule) (op : LabelOp) (now : ℕ) : Type 0 where
  pub lease : LeaseRecord
  pub active : active_lease s now ≡ some lease
  pub holder : op.by ≡ lease.holder
  pub epoch : op.lease_epoch ≡ lease.epoch
  pub target : SnapshotRecord
  pub held : get s.snapshots op.snapshot_id ≡ some target
  pub complete : target.orphan ≡ false

-- The old head of `main` is an ancestor of the new one.
abbrev pub Forward : Capsule → LabelOp → Type 0
Forward s op =
    (old : LabelOp)
    → get s.labels main ≡ some old
    → descends_from s op.snapshot_id old.snapshot_id ≡ true

check_main-MayMove :
    (s : Capsule) (op : LabelOp) (now : ℕ) → check_main s op now ≡ ok tt → MayMove s op now
unfolding check_main
check_main-MayMove s op now h = elim (Option-cases (active_lease s now)) [
  | inl e ↦ ground arith
  | inr (w, e) ↦ elim (Option-cases (get s.snapshots op.snapshot_id)) [
    | inl e' ↦ ground arith
    | inr (r, e') ↦ record {
      lease = w;
      active = e;
      holder = ground arith;
      epoch = ground arith;
      target = r;
      held = e';
      complete = ground arith;
    }
  ]
]

check_main-Forward :
    (s : Capsule) (op : LabelOp) (now : ℕ)
    → check_main s op now ≡ ok tt
    → wins s op ≡ true
    → Forward s op
unfolding check_main
check_main-Forward s op now h w old e = ground arith

at_main :
    (s : Capsule) (op : LabelOp) (now : ℕ)
    → op.name ≡ main
    → check_name s op now ≡ ok tt
    → check_main s op now ≡ ok tt
unfolding check_name
at_main s op now e h = ground (arith, list_beq_iff op.name main)

module _ ⦃c : Crates⦄ where
  -- An op that moves `main` is by the holder of the active lease, in its epoch; its target is a
  -- snapshot that the capsule holds and that is no orphan, and descends from the old head if there
  -- is one.
  pub apply_label-main :
      (s : Capsule) (op : LabelOp) (caller now : ℕ) (s' : Capsule)
      → op.name ≡ main
      → apply_label s op caller now ≡ ok (true, s')
      → MayMove s op now × Forward s op
  apply_label-main s op caller now s' e h =
      let (passed, (w, o)) = applied s op caller now true s' h in
      let k = at_main s op now e passed.named in
      (check_main-MayMove s op now k, check_main-Forward s op now k (ground arith))
