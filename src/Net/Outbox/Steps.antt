-- ===== src/Net/Outbox/Steps.antt =====
-- The operations of the outbox (crates/abra-net/src/outbox.rs) as data, and what each does to one
-- entry. A device has several outboxes: that of the file, which its handles share, and the detached
-- copies of the sessions; a state that a handle has read before counts as a copy. They are numbered.
use abra.Crates.{Crates}
use abra.Prelude.{
  ℕ, ◌≡◌, refl, Bytes, Bool, false, inl, inr, none, some, List, [], ◌∷◌, ◌==◌, nat_eq, bytes_eq,
  list_beq_iff, Option, Option-cases, arith, Result, ok, err, if◌then◌else◌, ◌||◌, true,
}
use abra.Prelude.Map.{get, get-insert}
use abra.Net.Ack.{Ack}
use abra.Net.Outbox.{
  OutboxEntry, Disk, with_entry, fresh_entry, enqueue, transition, transition_entry, fail_attempt,
  fail_entry, retry_fresh, retry_entry, apply_ack, ack_entry, mark_relay_deposited, deposit_entry,
  expire, expire_all, expire_entry, cancel, cancel_entry, OutboxState, is_dropped, sync_entry,
  sync_entry_from,
}

-- The calls of an outbox that change it, each with the time and the random numbers that it uses.
-- `sync_op` is `sync_entry_from`, with the number of the other outbox; `detach_op` makes the outbox a
-- detached copy of the one with that number.
pub data Op : Type 0 where
  enqueue_op : Bytes → Bytes → ℕ → ℕ → Bytes → ℕ → Op
  transition_op : Bytes → OutboxState → ℕ → Op
  fail_op : Bytes → Bytes → ℕ → ℕ → Op
  retry_op : Bytes → Bytes → ℕ → Op
  ack_op : Bytes → Ack → ℕ → Op
  deposit_op : Bytes → ℕ → Op
  expire_op : ℕ → Op
  cancel_op : Bytes → ℕ → Op
  sync_op : Bytes → ℕ → Op
  detach_op : ℕ → Op

-- The disk after a call; a call that fails leaves it.
abbrev pub disk_after {ℓ} : {A : Type ℓ} → Disk → Result (A × Disk) → Disk
disk_after d (ok (a, d')) = d'
disk_after d (err e) = d

-- The entry after a body; a body that fails leaves it.
abbrev pub entry_after {ℓ} : {A : Type ℓ} → OutboxEntry → Result (A × OutboxEntry) → OutboxEntry
entry_after e (ok (a, e')) = e'
entry_after e (err x) = e

-- The entry after a call of `sync_entry_from` on it.
abbrev pub synced : Option OutboxEntry → OutboxEntry → OutboxEntry
synced none e = e
synced (some entry) e = if is_dropped e.state then e else entry

-- `local_peer` is the device, `disks` its outboxes.
module _ ⦃c : Crates⦄ (local_peer : ℕ) (disks : ℕ → Disk) where
  unfoldable pub run_op : Op → Disk → Disk
  run_op (Op.enqueue_op id offer peer snapshot raw now) d =
      disk_after d (enqueue id offer peer snapshot raw now d)
  run_op (Op.transition_op id state now) d = disk_after d (transition id state now d)
  run_op (Op.fail_op id error pct now) d = disk_after d (fail_attempt id error pct now d)
  run_op (Op.retry_op id offer now) d = disk_after d (retry_fresh id offer now d)
  run_op (Op.ack_op id ack now) d = disk_after d (apply_ack id ack local_peer now d)
  run_op (Op.deposit_op id now) d = disk_after d (mark_relay_deposited id now d)
  run_op (Op.expire_op now) d = disk_after d (expire now d)
  run_op (Op.cancel_op id now) d = disk_after d (cancel id now d)
  run_op (Op.sync_op id j) d = disk_after d (sync_entry_from (disks j) id d)
  run_op (Op.detach_op j) d = disks j

  -- What a call does to the entry under a key.
  unfoldable pub step_entry : Op → Bytes → OutboxEntry → OutboxEntry
  step_entry (Op.enqueue_op id offer peer snapshot raw now) k e = e
  step_entry (Op.transition_op id state now) k e =
      if id == k then entry_after e (transition_entry state now e) else e
  step_entry (Op.fail_op id error pct now) k e =
      if id == k then entry_after e (fail_entry error pct now e) else e
  step_entry (Op.retry_op id offer now) k e =
      if id == k then entry_after e (retry_entry offer now e) else e
  step_entry (Op.ack_op id ack now) k e =
      if id == k then entry_after e (ack_entry ack local_peer now e) else e
  step_entry (Op.deposit_op id now) k e = if id == k then entry_after e (deposit_entry now e) else e
  step_entry (Op.expire_op now) k e = expire_entry now e
  step_entry (Op.cancel_op id now) k e = if id == k then entry_after e (cancel_entry now e) else e
  step_entry (Op.sync_op id j) k e = if id == k then synced (get (disks j) id) e else e
  step_entry (Op.detach_op j) k e = e

abbrev pub update : (ℕ → Disk) → ℕ → Disk → ℕ → Disk
update disks i d j = if i == j then d else disks j

-- A history: calls, each on one of the outboxes.
module _ ⦃c : Crates⦄ (local_peer : ℕ) where
  unfoldable pub run_ops : List (ℕ × Op) → (ℕ → Disk) → ℕ → Disk
  run_ops [] disks = disks
  run_ops ((i, op) ∷ ops) disks =
      run_ops ops (update disks i (run_op local_peer disks op (disks i)))

-- A call on one entry changes that entry and no other.
pub with_entry-get {ℓ} :
    {A : Type ℓ} (d : Disk) (id k : Bytes) (body : OutboxEntry → Result (A × OutboxEntry))
    (e : OutboxEntry)
    → get d k ≡ some e
    → get (disk_after d (with_entry d id body)) k
      ≡ some (if id == k then entry_after e (body e) else e)
unfolding with_entry
with_entry-get d id k body e h = elim (Option-cases (get d id)) [
  | inl absent ↦ ground (arith, list_beq_iff id k)
  | inr (f, present) ↦ ground (arith, list_beq_iff id k, get-insert d id k (entry_after f (body f)))
]

pub expire_all-get :
    (now : ℕ) (d : Disk) (k : Bytes) (e : OutboxEntry)
    → get d k ≡ some e
    → get (expire_all now d) k ≡ some (expire_entry now e)
unfolding expire_all get
expire_all-get now [] k e h = ground arith
expire_all-get now ((j, f) ∷ d) k e h = ground (arith, expire_all-get now d k e)

pub with_entry-get-none {ℓ} :
    {A : Type ℓ} (d : Disk) (id k : Bytes) (body : OutboxEntry → Result (A × OutboxEntry))
    → get d k ≡ none
    → get (disk_after d (with_entry d id body)) k ≡ none
unfolding with_entry
with_entry-get-none d id k body h = elim (Option-cases (get d id)) [
  | inl absent ↦ ground (arith, list_beq_iff id k)
  | inr (f, present) ↦ ground (arith, list_beq_iff id k, get-insert d id k (entry_after f (body f)))
]

pub expire_all-get-none :
    (now : ℕ) (d : Disk) (k : Bytes) → get d k ≡ none → get (expire_all now d) k ≡ none
unfolding expire_all get
expire_all-get-none now [] k h = refl
expire_all-get-none now ((j, f) ∷ d) k h = ground (arith, expire_all-get-none now d k)

sync_entry_from-get :
    (other d : Disk) (id k : Bytes) (e : OutboxEntry)
    → get d k ≡ some e
    → get (disk_after d (sync_entry_from other id d)) k
      ≡ some (if id == k then synced (get other id) e else e)
unfolding sync_entry_from sync_entry
sync_entry_from-get other d id k e h = elim (Option-cases (get other id)) [
  | inl absent ↦ ground (arith, list_beq_iff id k)
  | inr (f, present) ↦ ground (arith, list_beq_iff id k, get-insert d id k f)
]

sync_entry_from-get-none :
    (other d : Disk) (id k : Bytes)
    → get d k ≡ none
    → (id == k) ≡ false
    → get (disk_after d (sync_entry_from other id d)) k ≡ none
unfolding sync_entry_from sync_entry
sync_entry_from-get-none other d id k h differ = elim (Option-cases (get other id)) [
  | inl absent ↦ ground arith
  | inr (f, present) ↦ ground (arith, get-insert d id k f)
]

-- The calls that replace what is under a key: `enqueue` with that id, which it draws at random from
-- 128 bits, and a copy of the whole outbox.
unfoldable pub replaces : Bytes → Op → Bool
replaces k (Op.enqueue_op id offer peer snapshot raw now) = id == k
replaces k (Op.detach_op j) = true
replaces k _ = false

abbrev pub syncs : Bytes → Op → Bool
syncs k (Op.sync_op id j) = id == k
syncs k _ = false

abbrev pub brings : Bytes → Op → Bool
brings k op = replaces k op || syncs k op

module _ ⦃c : Crates⦄ (local_peer : ℕ) (disks : ℕ → Disk) where
  pub run_op-get :
      (op : Op) (d : Disk) (k : Bytes) (e : OutboxEntry)
      → get d k ≡ some e
      → replaces k op ≡ false
      → get (run_op local_peer disks op d) k ≡ some (step_entry local_peer disks op k e)
  unfolding run_op step_entry replaces enqueue transition fail_attempt retry_fresh apply_ack
      mark_relay_deposited expire cancel
  run_op-get (Op.enqueue_op id offer peer snapshot raw now) d k e h other =
      ground (arith, get-insert d id k (fresh_entry id offer peer snapshot raw now))
  run_op-get (Op.transition_op id state now) d k e h other =
      with_entry-get d id k (transition_entry state now) e h
  run_op-get (Op.fail_op id error pct now) d k e h other =
      with_entry-get d id k (fail_entry error pct now) e h
  run_op-get (Op.retry_op id offer now) d k e h other =
      with_entry-get d id k (retry_entry offer now) e h
  run_op-get (Op.ack_op id ack now) d k e h other =
      with_entry-get d id k (ack_entry ack local_peer now) e h
  run_op-get (Op.deposit_op id now) d k e h other = with_entry-get d id k (deposit_entry now) e h
  run_op-get (Op.expire_op now) d k e h other = expire_all-get now d k e h
  run_op-get (Op.cancel_op id now) d k e h other = with_entry-get d id k (cancel_entry now) e h
  run_op-get (Op.sync_op id j) d k e h other = sync_entry_from-get (disks j) d id k e h
  run_op-get (Op.detach_op j) d k e h other = ground arith

  pub run_op-get-none :
      (op : Op) (d : Disk) (k : Bytes)
      → get d k ≡ none
      → brings k op ≡ false
      → get (run_op local_peer disks op d) k ≡ none
  unfolding run_op replaces enqueue transition fail_attempt retry_fresh apply_ack
      mark_relay_deposited expire cancel
  run_op-get-none (Op.enqueue_op id offer peer snapshot raw now) d k h other =
      ground (arith, get-insert d id k (fresh_entry id offer peer snapshot raw now))
  run_op-get-none (Op.transition_op id state now) d k h other =
      with_entry-get-none d id k (transition_entry state now) h
  run_op-get-none (Op.fail_op id error pct now) d k h other =
      with_entry-get-none d id k (fail_entry error pct now) h
  run_op-get-none (Op.retry_op id offer now) d k h other =
      with_entry-get-none d id k (retry_entry offer now) h
  run_op-get-none (Op.ack_op id ack now) d k h other =
      with_entry-get-none d id k (ack_entry ack local_peer now) h
  run_op-get-none (Op.deposit_op id now) d k h other =
      with_entry-get-none d id k (deposit_entry now) h
  run_op-get-none (Op.expire_op now) d k h other = expire_all-get-none now d k h
  run_op-get-none (Op.cancel_op id now) d k h other =
      with_entry-get-none d id k (cancel_entry now) h
  run_op-get-none (Op.sync_op id j) d k h other = sync_entry_from-get-none (disks j) d id k h other
  run_op-get-none (Op.detach_op j) d k h other = ground arith
