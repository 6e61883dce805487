-- ===== src/Examples/Outbox.antt =====
-- Deliveries of one device (crates/abra-net/src/outbox.rs): the tests of the theorems on outboxes.
use abra.Examples.Toy.{toy}
use abra.Prelude.{
  ℕ, ◌≡◌, refl, ◌==◌, nat_eq, if◌then◌else◌, Option, Bytes, ascii, true, none, some, List, [], ◌∷◌,
  all, list_beq, Result, arith, bytes_eq,
}
use abra.Prelude.Map.{get, insert}
use abra.Net.Outbox.{
  OutboxState, OutboxEntry, Disk, enqueue, fresh_entry, with_entry, transition, transition_entry,
  legal, apply_ack, ack_entry, sync_entry_from, sync_entry, cancel, fail_attempt,
}
use abra.Net.Time.{format_time}
use abra.Identity.{verify}
use abra.Prelude.BigEndian.{to_be_bytes}
use abra.Net.Outbox.Handles.{Handle, run_handles, run_atomic, run_handles-atomic}
use abra.Net.Outbox.Steps.{Op, run_op, run_ops, disk_after, replaces}
use abra.Net.Ack.{Ack, ack_payload, verify_ack}
use abra.Net.Outbox.Lifecycle.{restarts, spares, run_ops-terminal}
use abra.Net.Outbox.Receipts.{AllHaveReceipts, run_ops-AllHaveReceipts}
use abra.Net.Outbox.Retry.{Failure, fail_attempt-terminal}

abbrev id : Bytes
id = ascii "0a"

abbrev some_state : Option OutboxEntry → Option OutboxState
some_state none = none
some_state (some e) = some e.state

abbrev delivery : OutboxState → ℕ → OutboxEntry
delivery state attempts = record {
  id = id;
  offer_id = ascii "0b";
  peer_id = 5;
  snapshot_id = 9;
  state = state;
  created_at = ascii "2026-01-01T12:00:00.000Z";
  updated_at = ascii "2026-01-01T12:00:00.000Z";
  attempts = attempts;
  last_error = none;
  ack_sig = none;
  next_attempt_at = ascii "2026-01-01T12:00:00.000Z";
  manifest_raw = ascii "m";
}

abbrev cancelled_disk : Disk
cancelled_disk = (id, delivery OutboxState.cancelled 0) ∷ []

-- The outbox of the file; the device has no other yet.
abbrev disks : Disk → ℕ → Disk
disks d j = if j == 0 then d else []

cancelled_there : get (disks cancelled_disk 0) id ≡ some (delivery OutboxState.cancelled 0)
unfolding get list_beq
cancelled_there = refl

-- A session's copy is detached, acts on its own, and is merged into the outbox of the file.
abbrev calls : List (ℕ × Op)
calls =
    (0, Op.expire_op 5)
    ∷ ((1, Op.detach_op 0)
        ∷ ((1, Op.retry_op id (ascii "0d") 6)
            ∷ ((0, Op.sync_op id 1)
                ∷ ((0, Op.deposit_op id 6)
                    ∷ ((0, Op.fail_op (ascii "0c") (ascii "dial") 100 8) ∷ [])))))

calls_spare : all (spares 0 id OutboxState.cancelled) calls ≡ true
unfolding restarts replaces list_beq
calls_spare = refl

run_ops-terminal_example :
    get (run_ops 3 calls (disks cancelled_disk) 0) id ≡ some (delivery OutboxState.cancelled 0)
run_ops-terminal_example =
    run_ops-terminal 3 calls (disks cancelled_disk) 0 id (delivery OutboxState.cancelled 0)
      cancelled_there refl calls_spare

no_entries : (j : ℕ) → AllHaveReceipts 3 []
unfolding get
no_entries j k e h = ground arith

abbrev offer : Bytes
offer = ascii "000102030405060708090a0b0c0d0e0f"

abbrev ack : Ack
ack = record {
  message_type = ascii "ack";
  offer_id = offer;
  snapshot_id = 9;
  received_at = ascii "2026-01-01T12:00:00.000Z";
  shelf = ascii "full";
  sig = 1005;
}

-- The ack reaches the session's copy, and the merge brings it into the outbox of the file.
abbrev acked_calls : List (ℕ × Op)
acked_calls =
    (0, Op.enqueue_op id offer 5 9 (ascii "m") 4)
    ∷ ((1, Op.detach_op 0)
        ∷ ((1, Op.transition_op id OutboxState.healthcheck 5)
            ∷ ((1, Op.ack_op id ack 6) ∷ ((0, Op.sync_op id 1) ∷ []))))

acked : some_state (get (run_ops 3 acked_calls (λ j. []) 0) id) ≡ some OutboxState.acked
unfolding run_ops run_op get insert list_beq enqueue fresh_entry transition transition_entry legal
    apply_ack ack_entry with_entry sync_entry_from sync_entry format_time verify_ack ack_payload
    to_be_bytes verify
acked = refl

run_ops-AllHaveReceipts_example : AllHaveReceipts 3 (run_ops 3 acked_calls (λ j. []) 0)
run_ops-AllHaveReceipts_example = run_ops-AllHaveReceipts 3 acked_calls (λ j. []) no_entries 0

abbrev dial : Failure
dial = (ascii "dial", (100, 1767268800000))

fail_attempt-terminal_example :
    (e : OutboxEntry) × (get
        (disk_after cancelled_disk (fail_attempt id (ascii "dial") 100 5 cancelled_disk))
        id
      ≡ some e)
    × (e.state ≡ OutboxState.queued)
fail_attempt-terminal_example =
    fail_attempt-terminal id (ascii "dial") 100 5 cancelled_disk (delivery OutboxState.cancelled 0)
      cancelled_there

-- Two handles of one file, the second opened before the first has enqueued.
abbrev two_handles : ℕ → Handle
two_handles j = record { disk = []; persist = true }

abbrev cancel_call : Disk → Result (Bytes × Disk)
cancel_call d = elim (cancel id 7 d) [
  | Result.ok (u, d') ↦ Result.ok (id, d')
  | Result.err e ↦ Result.err e
]

abbrev shared_calls : List (ℕ × (Disk → Result (Bytes × Disk)))
shared_calls = (0, enqueue id (ascii "0b") 5 9 (ascii "m") 4) ∷ ((1, cancel_call) ∷ [])

run_handles-atomic_example : run_handles two_handles none shared_calls ≡ run_atomic [] shared_calls
run_handles-atomic_example = run_handles-atomic two_handles none shared_calls (λ j. refl)
