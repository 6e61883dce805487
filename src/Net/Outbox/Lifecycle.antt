-- ===== src/Net/Outbox/Lifecycle.antt =====
-- The states of an outbox entry that are final (crates/abra-net/src/outbox.rs).
use abra.Crates.{Crates}
use abra.Prelude.{
  ℕ, ◌≡◌, Bytes, Bool, true, false, not, ◌&&◌, ◌||◌, some, List, [], ◌∷◌, all, ◌==◌, nat_eq,
  bytes_eq, arith, if◌then◌else◌, Bool-cases, inl, inr,
}
use abra.Prelude.Map.{get}
use abra.Net.Outbox.{
  OutboxEntry, OutboxState, Disk, terminal, transition_entry, legal, ack_entry, deposit_entry,
  expire_entry, cancel_entry,
}
use abra.Net.Outbox.Steps.{Op, run_op, run_ops, step_entry, replaces, syncs, run_op-get}

-- The calls that start an entry again: `fail_attempt` and `retry_fresh`.
unfoldable pub restarts : Bytes → Op → Bool
restarts k (Op.fail_op id error pct now) = id == k
restarts k (Op.retry_op id offer now) = id == k
restarts k op = false

abbrev is_acked : OutboxState → Bool
is_acked OutboxState.acked = true
is_acked _ = false

abbrev pub is_final : OutboxState → Bool
is_final OutboxState.acked = true
is_final OutboxState.cancelled = true
is_final OutboxState.expired = true
is_final _ = false

-- `sync_entry_from` replaces an acked entry.
abbrev overwrites : OutboxState → Bytes → Op → Bool
overwrites state k op = is_acked state && syncs k op

abbrev pub spares : ℕ → Bytes → OutboxState → ℕ × Op → Bool
spares i k state (j, op) =
    not (j == i) || (not (replaces k op) && (not (restarts k op) && not (overwrites state k op)))

module _ ⦃c : Crates⦄ (local_peer : ℕ) where
  step_entry-terminal :
      (disks : ℕ → Disk) (op : Op) (k : Bytes) (e : OutboxEntry)
      → is_final e.state ≡ true
      → restarts k op ≡ false
      → overwrites e.state k op ≡ false
      → step_entry local_peer disks op k e ≡ e
  unfolding step_entry restarts terminal transition_entry legal ack_entry deposit_entry expire_entry
      cancel_entry
  step_entry-terminal disks op k e final other kept = ground arith

  -- In every history of the outboxes of a device, an entry of an outbox that is acked, cancelled or
  -- expired stays as it is, unless a call on that outbox is a failed attempt or a fresh retry of the
  -- entry, reuses its random id, makes the outbox a copy of another one, or, where the entry is
  -- acked, syncs it from another outbox.
  pub run_ops-terminal :
      (ops : List (ℕ × Op)) (disks : ℕ → Disk) (i : ℕ) (k : Bytes) (e : OutboxEntry)
      → get (disks i) k ≡ some e
      → is_final e.state ≡ true
      → all (spares i k e.state) ops ≡ true
      → get (run_ops local_peer ops disks i) k ≡ some e
  unfolding run_ops
  run_ops-terminal [] disks i k e h final spared = h
  run_ops-terminal ((j, op) ∷ ops) disks i k e h final spared =
      let d = run_op local_peer disks op (disks j) in
      run_ops-terminal ops (λ n. if j == n then d else disks n) i k e
        (elim (Bool-cases (j == i)) [
          | inl same ↦
              let here : j ≡ i = ground arith in
              let there : get (disks j) k ≡ some e = rw here h in
              ground (
                arith,
                run_op-get local_peer disks op (disks j) k e there,
                step_entry-terminal disks op k e final,
              )
          | inr differ ↦ ground (arith, h)
        ])
        final (ground arith)
