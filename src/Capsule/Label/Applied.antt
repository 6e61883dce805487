-- ===== src/Capsule/Label/Applied.antt =====
-- What an accepted label op has passed and what it changes: the inversion of `apply_label`.
use abra.Crates.{Crates}
use abra.Prelude.{
  ℕ, ◌≡◌, ◌⊎◌, inl, inr, Bytes, Bool, true, false, not, ◌&&◌, Option, none, some, arith, ◌==◌,
  nat_eq, bytes_eq, list_beq_iff, length, leb, ok, if◌then◌else◌,
}
use abra.Prelude.Map.{get, contains_key, get-insert}
use abra.Capsule.LabelOp
use abra.Capsule.LabelOp.{LabelOp}
use abra.Capsule.State.{Capsule}
use abra.Capsule.Label.{loses, wins, check_name, write_label, set_label, apply_label}

-- The label that stays of a label and an op on its name.
abbrev pub newer : Option LabelOp → LabelOp → Option LabelOp
newer none op = some op
newer (some old) op = if loses op old then some old else some op

-- What the write of an op leaves alone.
pub record SameButLabels (s s' : Capsule) : Type 0 where
  pub genesis : s'.genesis ≡ s.genesis
  pub snapshots : s'.snapshots ≡ s.snapshots
  pub leases : s'.leases ≡ s.leases
  pub winner : s'.winner ≡ s.winner
  pub evidence : s'.evidence ≡ s.evidence

module _ ⦃c : Crates⦄ where
  pub record Passed (s : Capsule) (op : LabelOp) (caller now : ℕ) : Type 0 where
    pub capsule : op.capsule_id ≡ s.genesis.capsule_id
    pub signer : op.by ≡ caller
    pub verified : LabelOp.verify_label op ≡ ok tt
    pub named : check_name s op now ≡ ok tt
    pub limit : (not (contains_key s.labels op.name) && leb 128 (length s.labels)) ≡ false

  abbrev pub Outcome : Capsule → LabelOp → Bool → Capsule → Type 0
  Outcome s op b s' =
      (b ≡ wins s op) × (((b ≡ true) × (write_label s op ≡ ok s')) ⊎ ((b ≡ false) × (s' ≡ s)))

  pub applied :
      (s : Capsule) (op : LabelOp) (caller now : ℕ) (b : Bool) (s' : Capsule)
      → apply_label s op caller now ≡ ok (b, s')
      → Passed s op caller now × Outcome s op b s'
  unfolding apply_label
  applied s op caller now b s' h = ground arith

pub write_label-get :
    (s : Capsule) (op : LabelOp) (s' : Capsule) (k : Bytes)
    → write_label s op ≡ ok s'
    → get s'.labels k ≡ (if op.name == k then some op else get s.labels k)
unfolding write_label set_label
write_label-get s op s' k h = ground (arith, get-insert s.labels op.name k op)

pub write_label-SameButLabels :
    (s : Capsule) (op : LabelOp) (s' : Capsule) → write_label s op ≡ ok s' → SameButLabels s s'
unfolding write_label set_label
write_label-SameButLabels s op s' h = ground arith

pub wins-newer :
    (s : Capsule) (op : LabelOp)
    → newer (get s.labels op.name) op ≡ (if wins s op then some op else get s.labels op.name)
unfolding wins
wins-newer s op = ground arith

module _ ⦃c : Crates⦄ where
  -- An accepted op leaves at its name the newer of the label there and itself, by `seq` and then by
  -- signature; every other label, the snapshots and the leases stay. It wins exactly if it is newer.
  pub apply_label-newer :
      (s : Capsule) (op : LabelOp) (caller now : ℕ) (b : Bool) (s' : Capsule)
      → apply_label s op caller now ≡ ok (b, s')
      → ((k : Bytes)
          → get s'.labels k
            ≡ (if op.name == k then newer (get s.labels op.name) op else get s.labels k))
        × (b ≡ wins s op)
        × SameButLabels s s'
  apply_label-newer s op caller now b s' h =
      let (passed, (e, o)) = applied s op caller now b s' h in ((λ k. labels k o e), e, same o)
    where
      labels :
          (k : Bytes)
          → ((b ≡ true) × (write_label s op ≡ ok s')) ⊎ ((b ≡ false) × (s' ≡ s))
          → b ≡ wins s op
          → get s'.labels k
            ≡ (if op.name == k then newer (get s.labels op.name) op else get s.labels k)
      labels k (inl (t, w)) e = ground (arith, write_label-get s op s' k w, wins-newer s op)
      labels k (inr (f, w)) e = ground (arith, wins-newer s op, list_beq_iff op.name k)

      same :
          ((b ≡ true) × (write_label s op ≡ ok s')) ⊎ ((b ≡ false) × (s' ≡ s)) → SameButLabels s s'
      same (inl (_, w)) = write_label-SameButLabels s op s' w
      same (inr (_, e)) = ground arith
