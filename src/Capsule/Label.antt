-- ===== src/Capsule/Label.antt =====
-- `Capsule::apply_label` of crates/abra-core/src/capsule.rs.
pub mod Applied
pub mod Order
pub mod Main
pub mod Limits
use abra.Crates.{Crates}
use abra.Prelude.{
  ℕ, ◌+◌, Bytes, ascii, Bool, true, false, not, ◌&&◌, ◌||◌, Option, none, some, length, all, any,
  drop, take, is_some_and, is_none_or, ◌==◌, nat_eq, bytes_eq, list_beq, ltb, leb, Result, ok,
  invalid, ◌>>=◌, ◌>>◌, refuse_if, ok_or, if◌then◌else◌,
}
use abra.Prelude.Map.{get, insert, contains_key}
use abra.Manifest.Text.{is_lower, is_digit}
use abra.Capsule.LabelOp
use abra.Capsule.LabelOp.{LabelOp}
use abra.Capsule.State.{Capsule, active_lease}
use abra.Capsule.Ancestry.{descends_from}

-- The order of two ops on one name: by `seq`, then by signature.
unfoldable pub loses : LabelOp → LabelOp → Bool
loses op old = ltb op.seq old.seq || (op.seq == old.seq && leb op.sig old.sig)

unfoldable pub wins : Capsule → LabelOp → Bool
wins s op = not (is_some_and (get s.labels op.name) (loses op))

abbrev pub main : Bytes
main = ascii "main"

abbrev pub is_hex_lower : ℕ → Bool
is_hex_lower b = is_digit b || (leb b'a' b && leb b b'f')

-- `name.starts_with("fork/")`
unfoldable pub is_fork : Bytes → Bool
unfolding list_beq
is_fork name = take 5 name == ascii "fork/"

unfoldable pub check_main : Capsule → LabelOp → ℕ → Result (Unit {0})
check_main s op now = do
  w ← ok_or (active_lease s now) (invalid "main requires lease")
  refuse_if (not (op.by == w.holder) || not (op.lease_epoch == w.epoch))
      (invalid "unauthorized main move")
  refuse_if (is_none_or (get s.snapshots op.snapshot_id) (λ r. r.orphan))
      (invalid "main target missing or orphan")
  refuse_if
      (wins s op
        && is_some_and (get s.labels main)
            (λ old. not (descends_from s op.snapshot_id old.snapshot_id)))
      (invalid "main move does not descend from current head")

unfoldable pub check_fork : Bytes → Result (Unit {0})
check_fork name =
    refuse_if (not (length name == 13) || not (all is_hex_lower (drop 5 name)))
      (invalid "invalid fork label")

unfoldable pub check_user : Bytes → Result (Unit {0})
check_user name =
    refuse_if
      (ltb 64 (length name)
        || (length name == 0
            || any
                (λ b. not (
                  is_lower b
                  || (is_digit b || (b == b'.' || (b == b'_' || (b == b':' || b == b'-'))))))
                name))
      (invalid "invalid user label")

unfoldable pub check_name : Capsule → LabelOp → ℕ → Result (Unit {0})
check_name s op now =
    if op.name == main
    then check_main s op now
    else if is_fork op.name
    then check_fork op.name
    else check_user op.name

-- `*entry(by).or_default()`
abbrev pub or_zero : Option ℕ → ℕ
or_zero none = 0
or_zero (some n) = n

unfoldable pub set_label : Capsule → LabelOp → Capsule
unfolding insert list_beq
set_label s op = record s { labels = insert s.labels op.name op }

-- The write of an op that wins; a new fork label is counted for its signer.
unfoldable pub write_label : Capsule → LabelOp → Result Capsule
write_label s op =
    if is_fork op.name && not (contains_key s.labels op.name)
    then (do
      let count = or_zero (get s.fork_counts op.by)
      refuse_if (leb 32 count) (invalid "fork label limit exceeded")
      ok (set_label (record s { fork_counts = insert s.fork_counts op.by (count + 1) }) op))
    else ok (set_label s op)

module _ ⦃c : Crates⦄ where
  unfoldable pub apply_label : Capsule → LabelOp → ℕ → ℕ → Result (Bool × Capsule)
  apply_label s op caller now = do
    refuse_if (not (op.capsule_id == s.genesis.capsule_id) || not (op.op == ascii "set"))
        (invalid "invalid label op")
    refuse_if (not (op.by == caller)) (invalid "label signer differs from caller identity")
    LabelOp.verify_label op
    check_name s op now
    refuse_if (not (contains_key s.labels op.name) && leb 128 (length s.labels))
        (invalid "capsule label limit exceeded")
    if wins s op then (do s' ← write_label s op; ok (true, s')) else ok (false, s)
