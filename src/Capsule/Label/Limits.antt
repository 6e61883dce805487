-- ===== src/Capsule/Label/Limits.antt =====
-- The limits on labels, over any sequence of ops.
use abra.Crates.{Crates}
use abra.Prelude.{
  ℕ, ◌+◌, ◌≤◌, ◌≡◌, refl, ◌⊎◌, inl, inr, Bool, true, false, List, [], ◌∷◌, arith, nat_eq, bytes_eq,
  Bytes, not, ◌&&◌, length, Result, ok, err, if◌then◌else◌,
}
use abra.Prelude.Map.{Map, get, insert, contains_key, length-insert, get-insert}
use abra.Capsule.LabelOp.{LabelOp}
use abra.Capsule.State.{Capsule}
use abra.Capsule.Label.{is_fork, write_label, set_label, or_zero, apply_label}
use abra.Capsule.Label.Applied.{Passed, applied}

-- The fork labels of a capsule
abbrev pub fork_labels : Map Bytes LabelOp → ℕ
fork_labels [] = 0
fork_labels ((name, op) ∷ m) = let rest = fork_labels m in if is_fork name then rest + 1 else rest

abbrev pub total_count : Map ℕ ℕ → ℕ
total_count [] = 0
total_count ((by, n) ∷ m) = n + total_count m

-- At most 128 labels; every signer's count of new fork labels is at most 32; and together the counts
-- are the fork labels that the capsule has.
pub record IsLimited (s : Capsule) : Type 0 where
  pub labels : length s.labels ≤ 128
  pub forks : (by : ℕ) → or_zero (get s.fork_counts by) ≤ 32
  pub counted : fork_labels s.labels ≡ total_count s.fork_counts

fork_labels-insert :
    (m : Map Bytes LabelOp) (name : Bytes) (op : LabelOp)
    → fork_labels (insert m name op)
      ≡ (if is_fork name && not (contains_key m name) then fork_labels m + 1 else fork_labels m)
unfolding insert contains_key get
fork_labels-insert [] name op = ground arith
fork_labels-insert ((j, w) ∷ m) name op =
    ground (arith, fork_labels-insert m name op, bytes_eq.same_iff j name)

total_count-insert :
    (m : Map ℕ ℕ) (by n : ℕ) → total_count (insert m by n) + or_zero (get m by) ≡ total_count m + n
unfolding insert get
total_count-insert [] by n = omega arith
total_count-insert ((j, k) ∷ m) by n = ground (arith, total_count-insert m by n)

write_label-counted :
    (s : Capsule) (op : LabelOp) (s' : Capsule)
    → write_label s op ≡ ok s'
    → fork_labels s.labels ≡ total_count s.fork_counts
    → fork_labels s'.labels ≡ total_count s'.fork_counts
unfolding write_label set_label
write_label-counted s op s' h v = ground (
  arith,
  fork_labels-insert s.labels op.name op,
  total_count-insert s.fork_counts op.by (or_zero (get s.fork_counts op.by) + 1),
)

write_label-length :
    (s : Capsule) (op : LabelOp) (s' : Capsule)
    → write_label s op ≡ ok s'
    → length s'.labels
      ≡ (if contains_key s.labels op.name then length s.labels else length s.labels + 1)
unfolding write_label set_label
write_label-length s op s' h = ground (arith, length-insert s.labels op.name op)

write_label-forks :
    (s : Capsule) (op : LabelOp) (s' : Capsule) (by : ℕ)
    → write_label s op ≡ ok s'
    → or_zero (get s.fork_counts by) ≤ 32
    → or_zero (get s'.fork_counts by) ≤ 32
unfolding write_label set_label
write_label-forks s op s' by h v =
    ground (arith, get-insert s.fork_counts op.by by (or_zero (get s.fork_counts op.by) + 1))

-- One op: who sends it, when, and the op.
pub record Sent : Type 0 where
  pub op : LabelOp
  pub caller : ℕ
  pub now : ℕ

module _ ⦃c : Crates⦄ where
  written-IsLimited :
      (s : Capsule) (op : LabelOp) (caller now : ℕ) (s' : Capsule)
      → IsLimited s
      → Passed s op caller now
      → write_label s op ≡ ok s'
      → IsLimited s'
  written-IsLimited s op caller now s' v passed w = record {
    labels = ground (arith, write_label-length s op s' w, passed.limit, v.labels);
    forks = λ by. write_label-forks s op s' by w (v.forks by);
    counted = write_label-counted s op s' w v.counted;
  }

  step-IsLimited :
      (s : Capsule) (op : LabelOp) (caller now : ℕ) (b : Bool) (s' : Capsule)
      → IsLimited s
      → apply_label s op caller now ≡ ok (b, s')
      → IsLimited s'
  step-IsLimited s op caller now b s' v h =
      let (passed, (e, o)) = applied s op caller now b s' h in go passed o
    where
      go :
          Passed s op caller now
          → ((b ≡ true) × (write_label s op ≡ ok s')) ⊎ ((b ≡ false) × (s' ≡ s))
          → IsLimited s'
      go passed (inl (_, w)) = written-IsLimited s op caller now s' v passed w
      go passed (inr (_, e)) = rw e v

  -- A call that fails leaves the capsule as it is.
  abbrev pub after : Capsule → Result (Bool × Capsule) → Capsule
  after s (ok (_, s')) = s'
  after s (err _) = s

  unfoldable pub run_labels : Capsule → List Sent → Capsule
  run_labels s [] = s
  run_labels s (x ∷ xs) = run_labels (after s (apply_label s x.op x.caller x.now)) xs

  after-IsLimited :
      (s : Capsule) (x : Sent) (o : Result (Bool × Capsule))
      → apply_label s x.op x.caller x.now ≡ o
      → IsLimited s
      → IsLimited (after s o)
  after-IsLimited s x (ok (b, s')) e v = step-IsLimited s x.op x.caller x.now b s' v e
  after-IsLimited s x (err _) e v = v

  -- Whatever ops are sent, accepted or refused, a capsule within the limits stays within them: 128
  -- labels, and a count of at most 32 new fork labels for each signer, where the counts of all signers
  -- add up to the fork labels that the capsule has.
  pub run_labels-IsLimited :
      (s : Capsule) (xs : List Sent) → IsLimited s → IsLimited (run_labels s xs)
  unfolding run_labels
  run_labels-IsLimited s [] v = v
  run_labels-IsLimited s (x ∷ xs) v =
      run_labels-IsLimited (after s (apply_label s x.op x.caller x.now)) xs
        (after-IsLimited s x (apply_label s x.op x.caller x.now) refl v)
