-- ===== src/Net/Outbox/Retry.antt =====
-- `fail_attempt` of crates/abra-net/src/outbox.rs: the back-off and the limit of 20 attempts.
use abra.Prelude.{
  ℕ, zero, suc, ◌+◌, ◌-◌, ◌*◌, ◌/◌, ◌%◌, ◌^◌, ◌≤◌, ◌<◌, ◌≡◌, Bytes, some, List, [], ◌∷◌, length,
  arith, leb, min, nat_eq, bytes_eq, ==_refl, if◌then◌else◌,
}
use abra.Prelude.Map.{get}
use abra.Net.Time.{format_time}
use abra.Net.Outbox.{OutboxState, OutboxEntry, Disk, backoff, fail_entry, fail_attempt}
use abra.Net.Outbox.Steps.{disk_after, entry_after, with_entry-get}

pow_pos : (n : ℕ) → 1 ≤ 2 ^ n
pow_pos zero = omega arith
pow_pos (suc n) = ground (arith, pow_pos n)

backoff-range : (n : ℕ) → (1000 ≤ backoff n) × (backoff n ≤ 300000)
unfolding backoff
backoff-range n = ground (arith, pow_pos (min (n - 1) 18))

-- The failures of an entry in a row, each with its error, its jitter and its time.
abbrev pub Failure : Type 0
Failure = Bytes × (ℕ × ℕ)

unfoldable pub fail_all : List Failure → OutboxEntry → OutboxEntry
fail_all [] e = e
fail_all ((error, (pct, now)) ∷ fs) e = fail_all fs (entry_after e (fail_entry error pct now e))

fail_entry-attempts :
    (error : Bytes) (pct now : ℕ) (e : OutboxEntry)
    → (entry_after e (fail_entry error pct now e)).attempts ≡ (e.attempts + 1) % 2 ^ 32
unfolding fail_entry
fail_entry-attempts error pct now e = ground arith

fail_entry-state :
    (error : Bytes) (pct now : ℕ) (e : OutboxEntry)
    → (entry_after e (fail_entry error pct now e)).state
      ≡ (if leb 20 ((e.attempts + 1) % 2 ^ 32) then OutboxState.failed else OutboxState.queued)
unfolding fail_entry
fail_entry-state error pct now e = ground arith

-- An entry that fails again and again counts each failure and is queued after each of the first 19;
-- from the 20th on it is failed.
pub fail_all-state :
    (f : Failure) (fs : List Failure) (e : OutboxEntry)
    → e.attempts + length (f ∷ fs) < 2 ^ 32
    → ((fail_all (f ∷ fs) e).attempts ≡ e.attempts + length (f ∷ fs))
      × ((fail_all (f ∷ fs) e).state ≡ (
          if leb 20 (e.attempts + length (f ∷ fs)) then OutboxState.failed else OutboxState.queued))
unfolding fail_all
fail_all-state (error, (pct, now)) [] e small =
    ground (arith, fail_entry-attempts error pct now e, fail_entry-state error pct now e)
fail_all-state (error, (pct, now)) (g ∷ fs) e small =
    let e' = entry_after e (fail_entry error pct now e) in
    let counted = fail_entry-attempts error pct now e in
    let (n, s) = fail_all-state g fs e' (ground arith) in ground arith

jitter-range :
    (base pct : ℕ)
    → 1000 ≤ base
    → base ≤ 300000
    → 80 ≤ pct
    → pct ≤ 120
    → (800 ≤ base * pct / 100) × (base * pct / 100 ≤ 360000)
jitter-range base pct b B p P = grind arith

fail_entry-next :
    (error : Bytes) (pct now : ℕ) (e : OutboxEntry)
    → e.attempts < 19
    → (entry_after e (fail_entry error pct now e)).next_attempt_at
      ≡ format_time ((now + backoff (e.attempts + 1) * pct / 100) % 2 ^ 64)
unfolding fail_entry
fail_entry-next error pct now e few = ground arith

-- A failure below the limit delays the next attempt by 0.8 s to 6 minutes.
pub fail_entry-delay :
    (error : Bytes) (pct now : ℕ) (e : OutboxEntry)
    → e.attempts < 19
    → 80 ≤ pct
    → pct ≤ 120
    → now + 360000 < 2 ^ 64
    → (t : ℕ) × ((entry_after e (fail_entry error pct now e)).next_attempt_at ≡ format_time t)
      × (now + 800 ≤ t)
      × (t ≤ now + 360000)
fail_entry-delay error pct now e few low high small =
    let base = backoff (e.attempts + 1) in
    let (least, most) = backoff-range (e.attempts + 1) in
    let (d, D) = jitter-range base pct least most low high in
    (
      (now + base * pct / 100) % 2 ^ 64,
      fail_entry-next error pct now e few,
      omega arith,
      omega arith,
    )

-- `fail_attempt` has no test of the state: whatever state the entry is in, acked, cancelled or expired
-- ones included, it is queued again, or marked as failed if this is the 20th attempt or a later one.
pub fail_attempt-terminal :
    (id error : Bytes) (pct now : ℕ) (d : Disk) (e : OutboxEntry)
    → get d id ≡ some e
    → (e' : OutboxEntry) × (get (disk_after d (fail_attempt id error pct now d)) id ≡ some e')
      × (e'.state
          ≡ (if leb 20 ((e.attempts + 1) % 2 ^ 32) then OutboxState.failed else OutboxState.queued))
unfolding fail_attempt
fail_attempt-terminal id error pct now d e h = (
  entry_after e (fail_entry error pct now e),
  ground (arith, with_entry-get d id id (fail_entry error pct now) e h, ==_refl id),
  fail_entry-state error pct now e,
)
