-- ===== src/Capsule/Label/Order.antt =====
-- Two label ops in either order: the labels do not depend on the order of arrival.
use mathlib.Core.Path.{fun_ext}
use abra.Crates.{Crates}
use abra.Prelude.{
  ℕ, ◌≡◌, ◌≢◌, sym, ap, ◌∙◌, ◌⊎◌, Bytes, Bool, Option, none, some, arith, ◌==◌, nat_eq, bytes_eq,
  list_beq_iff, ok, if◌then◌else◌,
}
use abra.Prelude.Map.{get}
use abra.Capsule.LabelOp.{LabelOp}
use abra.Capsule.State.{Capsule}
use abra.Capsule.Label.{loses, apply_label}
use abra.Capsule.Label.Applied.{newer, apply_label-newer}

-- Two ops that are not equal in `seq` and signature.
abbrev pub Distinct : LabelOp → LabelOp → Type 0
Distinct a b = (a.seq ≢ b.seq) ⊎ (a.sig ≢ b.sig)

newer_comm_none : (a b : LabelOp) → Distinct a b → newer (some a) b ≡ newer (some b) a
unfolding loses
newer_comm_none a b d = ground arith

newer_comm_some :
    (old a b : LabelOp) → Distinct a b → newer (newer (some old) a) b ≡ newer (newer (some old) b) a
unfolding loses
newer_comm_some old a b d = ground arith

newer_comm :
    (o : Option LabelOp) (a b : LabelOp) → Distinct a b → newer (newer o a) b ≡ newer (newer o b) a
newer_comm none a b d = newer_comm_none a b d
newer_comm (some old) a b d = newer_comm_some old a b d

-- The label `k` after `op`, and after `op` and `op'`.
abbrev after : (Bytes → Option LabelOp) → LabelOp → Bytes → Option LabelOp
after labels op k = if op.name == k then newer (labels op.name) op else labels k

after_comm :
    (labels : Bytes → Option LabelOp) (a b : LabelOp) (k : Bytes)
    → Distinct a b
    → after (after labels a) b k ≡ after (after labels b) a k
after_comm labels a b k d = ground (
  arith,
  newer_comm (labels k) a b d,
  list_beq_iff a.name k,
  list_beq_iff b.name k,
  list_beq_iff a.name b.name,
  list_beq_iff b.name a.name,
)

module _ ⦃c : Crates⦄ where
  -- Two distinct ops that are accepted in both orders, from whichever callers and at whatever times,
  -- leave the same labels.
  pub apply_label_confluent :
      (s sa sb sab sba : Capsule) (a b : LabelOp) (ca cb now now' : ℕ) (x y x' y' : Bool)
      → Distinct a b
      → apply_label s a ca now ≡ ok (x, sa)
      → apply_label sa b cb now' ≡ ok (y, sab)
      → apply_label s b cb now ≡ ok (x', sb)
      → apply_label sb a ca now' ≡ ok (y', sba)
      → (k : Bytes) → get sab.labels k ≡ get sba.labels k
  apply_label_confluent s sa sb sab sba a b ca cb now now' x y x' y' d ha hab hb hba k =
      let (fa, _, _) = apply_label-newer s a ca now x sa ha in
      let (fab, _, _) = apply_label-newer sa b cb now' y sab hab in
      let (fb, _, _) = apply_label-newer s b cb now x' sb hb in
      let (fba, _, _) = apply_label-newer sb a ca now' y' sba hba in
      fab k
      ∙ ap (λ (f : Bytes → Option LabelOp). after f b k) (fun_ext fa)
      ∙ after_comm (get s.labels) a b k d
      ∙ ap (λ (f : Bytes → Option LabelOp). after f a k) (sym (fun_ext fb))
      ∙ sym (fba k)
