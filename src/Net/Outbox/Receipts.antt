-- ===== src/Net/Outbox/Receipts.antt =====
-- What the state `acked` of the outbox (crates/abra-net/src/outbox.rs) proves.
use abra.Crates.{Crates}
use abra.Prelude.{
  ℕ, ◌≡◌, refl, ◌⊎◌, Bytes, Bool, true, false, some, inl, inr, List, [], ◌∷◌, all, nat_eq, bytes_eq,
  list_beq_iff, Option-cases, Bool-cases, arith, ok, ◌==◌,
}
use abra.Prelude.Map.{get, get-insert}
use abra.Net.Ack.{Ack, verify_ack}
use abra.Net.Outbox.{
  OutboxState, OutboxEntry, Disk, transition_entry, legal, ack_entry, deposit_entry, expire_entry,
  cancel_entry, fail_entry, retry_entry, fresh_entry, enqueue, sync_entry_from, sync_entry,
}
use abra.Net.Outbox.Steps.{
  Op, disk_after, run_op, run_ops, step_entry, update, replaces, syncs, brings, run_op-get,
  run_op-get-none,
}

module _ ⦃c : Crates⦄ (local_peer : ℕ) where
  -- The receipt of a delivery from this device: an ack of the entry's offer and snapshot that the
  -- entry's peer has signed.
  pub record IsReceiptFor (ack : Ack) (e : OutboxEntry) : Type 0 where
    pub offer : ack.offer_id ≡ e.offer_id
    pub snapshot : ack.snapshot_id ≡ e.snapshot_id
    pub kept : e.ack_sig ≡ some ack.sig
    pub verified : verify_ack ack local_peer e.peer_id ≡ ok tt

  abbrev pub HasReceipt : OutboxEntry → Type 0
  HasReceipt e = e.state ≡ OutboxState.acked → (ack : Ack) × IsReceiptFor ack e

  abbrev pub AllHaveReceipts : Disk → Type 0
  AllHaveReceipts d = (k : Bytes) (e : OutboxEntry) → get d k ≡ some e → HasReceipt e

  same-AllHaveReceipts : (d d' : Disk) → d' ≡ d → AllHaveReceipts d → AllHaveReceipts d'
  same-AllHaveReceipts d d' same h = rw same h

  ack_entry-IsReceiptFor :
      (ack : Ack) (now : ℕ) (e e' : OutboxEntry)
      → ack_entry ack local_peer now e ≡ ok (true, e')
      → IsReceiptFor ack e'
  unfolding ack_entry
  ack_entry-IsReceiptFor ack now e e' h = ground (arith, list_beq_iff e.offer_id ack.offer_id)

  -- Only an ack leads to `acked`.
  abbrev is_ack_op : Op → Bool
  is_ack_op (Op.ack_op id ack now) = true
  is_ack_op op = false

  step_entry-acked :
      (disks : ℕ → Disk) (op : Op) (k : Bytes) (e : OutboxEntry)
      → is_ack_op op ≡ false
      → syncs k op ≡ false
      → (step_entry local_peer disks op k e).state ≡ OutboxState.acked
      → step_entry local_peer disks op k e ≡ e
  unfolding step_entry transition_entry legal deposit_entry expire_entry cancel_entry fail_entry
      retry_entry
  step_entry-acked disks op k e other own acked = ground arith

  ack_entry-acked :
      (disks : ℕ → Disk) (id k : Bytes) (ack : Ack) (now : ℕ) (e : OutboxEntry)
      → (step_entry local_peer disks (Op.ack_op id ack now) k e ≡ e)
        ⊎ ((e' : OutboxEntry) × (ack_entry ack local_peer now e ≡ ok (true, e'))
            × (step_entry local_peer disks (Op.ack_op id ack now) k e ≡ e'))
  unfolding step_entry ack_entry
  ack_entry-acked disks id k ack now e = ground arith

  same-HasReceipt : (e e' : OutboxEntry) → e' ≡ e → HasReceipt e → HasReceipt e'
  same-HasReceipt e e' same h = rw same h

  step_entry-HasReceipt :
      (disks : ℕ → Disk) (op : Op) (k : Bytes) (e : OutboxEntry)
      → syncs k op ≡ false
      → HasReceipt e
      → HasReceipt (step_entry local_peer disks op k e)
  step_entry-HasReceipt disks (Op.ack_op id ack now) k e own h =
      let after = step_entry local_peer disks (Op.ack_op id ack now) k e in
      elim (ack_entry-acked disks id k ack now e) [
        | inl same ↦ same-HasReceipt e after same h
        | inr (e', done, result) ↦
            same-HasReceipt e' after result
              (λ acked. (ack, ack_entry-IsReceiptFor ack now e e' done))
      ]
  step_entry-HasReceipt disks op k e own h = λ acked.
      same-HasReceipt e (step_entry local_peer disks op k e)
        (step_entry-acked disks op k e refl own acked) h acked

  fresh_entry-HasReceipt :
      (id offer : Bytes) (peer snapshot : ℕ) (raw : Bytes) (now : ℕ)
      → HasReceipt (fresh_entry id offer peer snapshot raw now)
  unfolding fresh_entry
  fresh_entry-HasReceipt id offer peer snapshot raw now acked = ground arith

  -- What a call of `sync_entry_from` leaves under the id is of one of the two outboxes.
  synced-HasReceipt :
      (other d : Disk) (id k : Bytes) (e : OutboxEntry)
      → (id == k) ≡ true
      → get (disk_after d (sync_entry_from other id d)) k ≡ some e
      → (get d k ≡ some e) ⊎ (get other id ≡ some e)
  unfolding sync_entry_from sync_entry
  synced-HasReceipt other d id k e same h = elim (Option-cases (get other id)) [
    | inl absent ↦ ground arith
    | inr (f, present) ↦ ground (arith, get-insert d id k f)
  ]

  -- What a call brings under a key has a receipt if it is acked.
  brought :
      (disks : ℕ → Disk) (op : Op) (i : ℕ) (k : Bytes) (e : OutboxEntry)
      → ((j : ℕ) → AllHaveReceipts (disks j))
      → brings k op ≡ true
      → get (run_op local_peer disks op (disks i)) k ≡ some e
      → HasReceipt e
  unfolding run_op enqueue replaces
  brought disks (Op.enqueue_op id offer peer snapshot raw now) i k e all same h =
      let f = fresh_entry id offer peer snapshot raw now in
      same-HasReceipt f e (ground (arith, get-insert (disks i) id k f))
        (fresh_entry-HasReceipt id offer peer snapshot raw now)
  brought disks (Op.sync_op id j) i k e all same h =
      elim (synced-HasReceipt (disks j) (disks i) id k e same h) [
        | inl own ↦ all i k e own
        | inr theirs ↦ all j id e theirs
      ]
  brought disks (Op.detach_op j) i k e all same h = all j k e h
  brought disks op i k e all same h = ground arith

  run_op-AllHaveReceipts :
      (disks : ℕ → Disk) (op : Op) (i : ℕ)
      → ((j : ℕ) → AllHaveReceipts (disks j))
      → AllHaveReceipts (run_op local_peer disks op (disks i))
  run_op-AllHaveReceipts disks op i all k e h = elim (Bool-cases (brings k op)) [
    | inl same ↦ brought disks op i k e all same h
    | inr other ↦ elim (Option-cases (get (disks i) k)) [
      | inl absent ↦ ground (arith, run_op-get-none local_peer disks op (disks i) k absent other)
      | inr (f, present) ↦
          same-HasReceipt (step_entry local_peer disks op k f) e
            (ground (arith, run_op-get local_peer disks op (disks i) k f present))
            (step_entry-HasReceipt disks op k f (ground arith) (all i k f present))
    ]
  ]

  -- In every history of the outboxes of a device, that of the file and its detached copies, whose
  -- acked entries have receipts at the start, as in empty ones: each acked entry of each outbox holds
  -- the signature of its peer over an ack of its offer and snapshot for this device.
  pub run_ops-AllHaveReceipts :
      (ops : List (ℕ × Op)) (disks : ℕ → Disk)
      → ((j : ℕ) → AllHaveReceipts (disks j))
      → (j : ℕ) → AllHaveReceipts (run_ops local_peer ops disks j)
  unfolding run_ops
  run_ops-AllHaveReceipts [] disks all = all
  run_ops-AllHaveReceipts ((i, op) ∷ ops) disks all =
      let d = run_op local_peer disks op (disks i) in
      run_ops-AllHaveReceipts ops (update disks i d) (λ j. elim (Bool-cases (i == j)) [
        | inl same ↦
            same-AllHaveReceipts d (update disks i d j) (ground arith)
              (run_op-AllHaveReceipts disks op i all)
        | inr differ ↦ same-AllHaveReceipts (disks j) (update disks i d j) (ground arith) (all j)
      ])
