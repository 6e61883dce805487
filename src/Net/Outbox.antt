-- ===== src/Net/Outbox.antt =====
-- crates/abra-net/src/outbox.rs: the queue of deliveries, as functions on its disk state. Random
-- ids and jitter are arguments.
pub mod Handles
pub mod Steps
pub mod Lifecycle
pub mod Receipts
pub mod Retry
use abra.Crates.{Crates}
use abra.Prelude.{
  ℕ, suc, ◌+◌, ◌-◌, ◌*◌, ◌/◌, ◌%◌, ◌^◌, ◌≡◌, refl, Bytes, Bool, true, false, not, ◌&&◌, ◌||◌,
  Option, none, some, List, [], ◌∷◌, map, retain, ◌==◌, nat_eq, bytes_eq, list_beq, ltb, leb, min,
  is_some_and, Result, ok, err, protocol, ◌>>=◌, ◌>>◌, refuse_if, ok_or, if◌then◌else◌,
}
use abra.Prelude.Map.{Map, get, insert, values}
use abra.Net.Time.{format_time, parse_time}
use abra.Net.Ack.{Ack, verify_ack}

abbrev pub ttl_ms : ℕ
ttl_ms = 604800000

pub data OutboxState : Type 0 where
  queued healthcheck offered transferring awaiting_ack acked failed cancelled expired : OutboxState

unfoldable pub terminal : OutboxState → Bool
terminal OutboxState.acked = true
terminal OutboxState.cancelled = true
terminal OutboxState.expired = true
terminal _ = false

abbrev pub is_failed : OutboxState → Bool
is_failed OutboxState.failed = true
is_failed _ = false

abbrev pub is_queued : OutboxState → Bool
is_queued OutboxState.queued = true
is_queued _ = false

pub record OutboxEntry : Type 0 where
  pub id : Bytes
  pub offer_id : Bytes
  pub peer_id : ℕ
  pub snapshot_id : ℕ
  pub state : OutboxState
  pub created_at : Bytes
  pub updated_at : Bytes
  pub attempts : ℕ
  pub last_error : Option Bytes
  pub ack_sig : Option ℕ
  pub next_attempt_at : Bytes
  pub manifest_raw : Bytes

-- `Disk` with its one field
abbrev pub Disk : Type 0
Disk = Map Bytes OutboxEntry

-- `disk.entries.get_mut(id)`, with the entry that the body leaves
unfoldable pub with_entry {ℓ} :
    {A : Type ℓ} → Disk → Bytes → (OutboxEntry → Result (A × OutboxEntry)) → Result (A × Disk)
with_entry d id body = do
  e ← ok_or (get d id) (protocol "unknown outbox id")
  changed ← body e
  ok (changed.0, insert d id changed.1)

-- The entry that `enqueue` makes.
unfoldable pub fresh_entry : Bytes → Bytes → ℕ → ℕ → Bytes → ℕ → OutboxEntry
fresh_entry id offer_id peer_id snapshot_id manifest_raw now = record {
  id = id;
  offer_id = offer_id;
  peer_id = peer_id;
  snapshot_id = snapshot_id;
  state = OutboxState.queued;
  created_at = format_time now;
  updated_at = format_time now;
  attempts = 0;
  last_error = none;
  ack_sig = none;
  next_attempt_at = format_time now;
  manifest_raw = manifest_raw;
}

-- `enqueue` for fresh ids
unfoldable pub enqueue : Bytes → Bytes → ℕ → ℕ → Bytes → ℕ → Disk → Result (Bytes × Disk)
enqueue id offer_id peer_id snapshot_id manifest_raw now d =
    ok (id, insert d id (fresh_entry id offer_id peer_id snapshot_id manifest_raw now))

abbrev pub is_ok_le : Result ℕ → ℕ → Bool
is_ok_le (ok t) now = leb t now
is_ok_le (err e) now = false

unfoldable pub pending_ids : Disk → ℕ → List Bytes
unfolding terminal
pending_ids d now =
    map (λ (e : OutboxEntry). e.id)
      (retain (λ e. is_ok_le (parse_time e.next_attempt_at) now)
        (retain (λ e. not (terminal e.state) && not (is_failed e.state)) (values d)))

-- The table of `transition`.
unfoldable pub legal : OutboxState → OutboxState → Bool
legal OutboxState.queued OutboxState.healthcheck = true
legal OutboxState.offered OutboxState.healthcheck = true
legal OutboxState.transferring OutboxState.healthcheck = true
legal OutboxState.awaiting_ack OutboxState.healthcheck = true
legal OutboxState.healthcheck OutboxState.offered = true
legal OutboxState.offered OutboxState.transferring = true
legal OutboxState.transferring OutboxState.awaiting_ack = true
legal OutboxState.healthcheck OutboxState.queued = true
legal OutboxState.offered OutboxState.queued = true
legal OutboxState.transferring OutboxState.queued = true
legal OutboxState.awaiting_ack OutboxState.queued = true
legal _ _ = false

unfoldable pub transition_entry : OutboxState → ℕ → OutboxEntry → Result (Unit {0} × OutboxEntry)
transition_entry state now e = do
  refuse_if (not (legal e.state state)) (protocol "illegal outbox transition")
  ok (tt, record e { state = state; updated_at = format_time now })

unfoldable pub transition : Bytes → OutboxState → ℕ → Disk → Result (Unit {0} × Disk)
transition id state now d = with_entry d id (transition_entry state now)

-- `1000.saturating_mul(1 << (attempts - 1).min(18)).min(300_000)`; the product is below 2^28.
unfoldable pub backoff : ℕ → ℕ
backoff attempts = min (1000 * 2 ^ min (attempts - 1) 18) 300000

unfoldable pub fail_entry : Bytes → ℕ → ℕ → OutboxEntry → Result (Unit {0} × OutboxEntry)
unfolding backoff
fail_entry error pct now e =
    let attempts = (e.attempts + 1) % 2 ^ 32 in
    if leb 20 attempts
    then ok (
      tt,
      record e {
        attempts = attempts;
        last_error = some error;
        state = OutboxState.failed;
        updated_at = format_time now;
      },
    )
    else ok (
      tt,
      record e {
        attempts = attempts;
        last_error = some error;
        state = OutboxState.queued;
        next_attempt_at = format_time ((now + backoff attempts * pct / 100) % 2 ^ 64);
        updated_at = format_time now;
      },
    )

unfoldable pub fail_attempt : Bytes → Bytes → ℕ → ℕ → Disk → Result (Unit {0} × Disk)
fail_attempt id error pct now d = with_entry d id (fail_entry error pct now)

unfoldable pub retry_entry : Bytes → ℕ → OutboxEntry → Result (Bytes × OutboxEntry)
retry_entry offer_id now e = ok (
  offer_id,
  record e {
    offer_id = offer_id;
    state = OutboxState.queued;
    attempts = 0;
    ack_sig = none;
    updated_at = format_time now;
    next_attempt_at = format_time now;
  },
)

-- `retry_fresh` for a fresh offer id
unfoldable pub retry_fresh : Bytes → Bytes → ℕ → Disk → Result (Bytes × Disk)
retry_fresh id offer_id now d = with_entry d id (retry_entry offer_id now)

-- `matches!(e.state, AwaitingAck | Healthcheck)`
abbrev pub awaits : OutboxState → Bool
awaits OutboxState.awaiting_ack = true
awaits OutboxState.healthcheck = true
awaits _ = false

module _ ⦃c : Crates⦄ where
  unfoldable pub ack_entry : Ack → ℕ → ℕ → OutboxEntry → Result (Bool × OutboxEntry)
  ack_entry ack local_peer now e =
      if not (awaits e.state)
        || (not (e.offer_id == ack.offer_id) || not (e.snapshot_id == ack.snapshot_id))
      then ok (false, e)
      else (do
        verify_ack ack local_peer e.peer_id
        ok (
          true,
          record e {
            state = OutboxState.acked;
            ack_sig = some ack.sig;
            updated_at = format_time now;
          },
        ))

  unfoldable pub apply_ack : Bytes → Ack → ℕ → ℕ → Disk → Result (Bool × Disk)
  apply_ack id ack local_peer now d = with_entry d id (ack_entry ack local_peer now)

-- `u64::saturating_add`
abbrev pub saturating_add : ℕ → ℕ → ℕ
saturating_add a b = min (a + b) (2 ^ 64 - 1)

unfoldable pub deposit_entry : ℕ → OutboxEntry → Result (Unit {0} × OutboxEntry)
deposit_entry now e =
    if not (terminal e.state)
    then ok (
      tt,
      record e {
        state = OutboxState.awaiting_ack;
        updated_at = format_time now;
        next_attempt_at = format_time (saturating_add now 60000);
      },
    )
    else ok (tt, e)

unfoldable pub mark_relay_deposited : Bytes → ℕ → Disk → Result (Unit {0} × Disk)
mark_relay_deposited id now d = with_entry d id (deposit_entry now)

abbrev pub age_of : Result ℕ → ℕ → ℕ
age_of (ok t) now = now - t
age_of (err e) now = 2 ^ 64 - 1

unfoldable pub age_ms : Bytes → ℕ → ℕ
age_ms created now = age_of (parse_time created) now

unfoldable pub expire_entry : ℕ → OutboxEntry → OutboxEntry
expire_entry now e =
    if is_queued e.state && ltb ttl_ms (age_ms e.created_at now)
    then record e { state = OutboxState.expired; updated_at = format_time now }
    else e

unfoldable pub expire_all : ℕ → Disk → Disk
expire_all now [] = []
expire_all now ((k, e) ∷ d) = (k, expire_entry now e) ∷ expire_all now d

unfoldable pub expire : ℕ → Disk → Result (Unit {0} × Disk)
expire now d = ok (tt, expire_all now d)

unfoldable pub cancel_entry : ℕ → OutboxEntry → Result (Unit {0} × OutboxEntry)
cancel_entry now e = do
  refuse_if (terminal e.state || is_failed e.state) (protocol "cannot cancel terminal outbox entry")
  ok (tt, record e { state = OutboxState.cancelled; updated_at = format_time now })

unfoldable pub cancel : Bytes → ℕ → Disk → Result (Unit {0} × Disk)
cancel id now d = with_entry d id (cancel_entry now)

-- `matches!(entry.state, Cancelled | Expired)`
abbrev pub is_dropped : OutboxState → Bool
is_dropped OutboxState.cancelled = true
is_dropped OutboxState.expired = true
is_dropped _ = false

-- The closure of `sync_entry_from`, for the entry of the other outbox.
unfoldable pub sync_entry : Bytes → OutboxEntry → Disk → Result (Unit {0} × Disk)
sync_entry id entry d =
    if is_some_and (get d id) (λ e. is_dropped e.state)
    then ok (tt, d)
    else ok (tt, insert d id entry)

unfoldable pub sync_entry_from : Disk → Bytes → Disk → Result (Unit {0} × Disk)
sync_entry_from other id d = do
  entry ← ok_or (get other id) (protocol "unknown outbox id")
  sync_entry id entry d
