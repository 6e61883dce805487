-- ===== src/Capsule/Lease.antt =====
-- `Capsule::new` and `Capsule::accept_lease` of crates/abra-core/src/capsule.rs.
pub mod Accepted
pub mod Settle
pub mod Win
pub mod Invariant
pub mod History
pub mod Race
use abra.Crates.{Crates}
use abra.Prelude.Int.{pos, leb_ℤ, checked_sub}
use abra.Prelude.{
  ℕ, ◌+◌, ◌-◌, ◌%◌, ◌^◌, ascii, Bool, true, false, not, ◌&&◌, ◌||◌, Option, none, some, List, [],
  ◌∷◌, ◌++◌, length, drop, is_some_and, ◌==◌, nat_eq, bytes_eq, list_beq, leb, Result, ok, err,
  invalid, panic, ◌>>=◌, ◌>>◌, refuse_if, ok_or, if◌then◌else◌,
}
use abra.Time.Civil.{timestamp_ms}
use abra.Capsule.Signed.{spec}
use abra.Capsule.Genesis
use abra.Capsule.Genesis.{Genesis}
use abra.Capsule.LeaseRecord
use abra.Capsule.LeaseRecord.{LeaseRecord, LeaseMode, is_mode}
use abra.Capsule.State.{Capsule, winning_lease}

abbrev pub ttl_min_ms : ℕ
ttl_min_ms = 60000

abbrev pub ttl_max_ms : ℕ
ttl_max_ms = 604800000

-- Whose hash, epoch and holder the record must continue.
pub record Predecessor : Type 0 where
  pub prev : ℕ
  pub epoch : ℕ
  pub holder : ℕ

unfoldable pub check_ttl : LeaseRecord → Result (Unit {0})
unfolding checked_sub
check_ttl r = do
  end ← timestamp_ms r.expires_at
  start ← timestamp_ms r.acquired_at
  ttl ← ok_or (checked_sub end start) (invalid "lease expires before acquisition")
  refuse_if (not (leb_ℤ (pos ttl_min_ms) ttl && leb_ℤ ttl (pos ttl_max_ms)))
      (invalid "lease TTL outside 60s..=7d")

unfoldable pub is_race : Capsule → LeaseRecord → Bool
is_race s r = is_some_and (winning_lease s) (λ w. r.epoch == w.epoch && r.prev_hash == w.prev_hash)

-- `u64 + 1`, as a release build computes it
abbrev pub next_epoch : ℕ → ℕ
next_epoch e = (e + 1) % 2 ^ 64

-- `self.evidence.remove(0)` at 64 records, then `push`
unfoldable pub push_evidence : List LeaseRecord → LeaseRecord → List LeaseRecord
push_evidence ev r = (if length ev == 64 then drop 1 ev else ev) ++ (r ∷ [])

unfoldable pub add_lease : Capsule → LeaseRecord → Capsule
add_lease s r = record s { leases = s.leases ++ (r ∷ []) }

unfoldable pub add_winner : Capsule → LeaseRecord → Capsule
add_winner s r = record s {
  leases = s.leases ++ (r ∷ []);
  winner = some (length (s.leases ++ (r ∷ [])) - 1);
}

-- The last test of a race, and the two ways to keep the record.
unfoldable pub settle_race : Capsule → LeaseRecord → Option LeaseRecord → Result (Bool × Capsule)
unfolding add_lease add_winner
settle_race s r none = err (panic "race without a winning lease")
settle_race s r (some w) =
    if leb r.sig w.sig then ok (false, add_lease s r) else ok (true, add_winner s r)

unfoldable pub settle : Capsule → LeaseRecord → Result (Bool × Capsule)
settle s r = if is_race s r then settle_race s r (winning_lease s) else ok (true, add_winner s r)

-- `Grant` and `Refresh`, and the first epoch.
unfoldable pub check_mode : Capsule → LeaseRecord → ℕ → Result (Unit {0})
check_mode s r old_holder = do
  refuse_if (r.epoch == 1 && not (is_mode r.mode LeaseMode.grant))
      (invalid "epoch 1 must be a grant")
  if is_mode r.mode LeaseMode.grant
      then refuse_if (not (r.epoch == 1) || not (r.holder == s.genesis.created_by))
          (invalid "invalid grant")
      else refuse_if (is_mode r.mode LeaseMode.refresh && not (r.holder == old_holder))
          (invalid "refresh changes holder")

-- Does the record continue its predecessor?
unfoldable pub continues : Predecessor → LeaseRecord → Bool
continues p r = r.prev_hash == p.prev && r.epoch == next_epoch p.epoch

module _ ⦃c : Crates⦄ where
  unfoldable pub check_schema : Capsule → LeaseRecord → Result (Unit {0})
  unfolding list_beq
  check_schema s r =
      refuse_if
        (not (r.spec == spec)
          || (not (r.record_type == ascii "lease")
              || (not (r.capsule_id == s.genesis.capsule_id) || r.epoch == 0)))
        (invalid "invalid lease record")

  abbrev pub has_hash : ℕ → Result ℕ → Bool
  has_hash h (ok k) = k == h
  has_hash h (err e) = false

  -- `self.leases.iter().find(|x| x.hash().ok() == Some(h))`
  unfoldable pub find_hash : List LeaseRecord → ℕ → Option LeaseRecord
  find_hash [] h = none
  find_hash (x ∷ xs) h = if has_hash h (LeaseRecord.hash x) then some x else find_hash xs h

  unfoldable pub from_genesis : Capsule → Result Predecessor
  from_genesis s = do
    h ← Genesis.hash s.genesis
    ok (record { prev = h; epoch = 0; holder = s.genesis.created_by })

  unfoldable pub after_winner : Capsule → Option LeaseRecord → Result Predecessor
  after_winner s none = from_genesis s
  after_winner s (some w) = do
    h ← LeaseRecord.hash w
    ok (record { prev = h; epoch = w.epoch; holder = w.holder })

  unfoldable pub predecessor : Capsule → LeaseRecord → Result Predecessor
  predecessor s r =
      if is_race s r
      then (if r.epoch == 1 then from_genesis s else (do
        p ← ok_or (find_hash s.leases r.prev_hash) (invalid "lease race predecessor unavailable")
        ok (record { prev = r.prev_hash; epoch = p.epoch; holder = p.holder })))
      else after_winner s (winning_lease s)

  unfoldable pub signer_of : LeaseRecord → Predecessor → ℕ
  signer_of r p = if is_mode r.mode LeaseMode.takeover then r.holder else p.holder

  -- What `accept_lease` does once the signature is verified.
  unfoldable pub finish :
      Capsule → LeaseRecord → (ℕ → LeaseMode → Bool) → Predecessor → Result (Bool × Capsule)
  finish s r authorize p = do
    refuse_if
        ((is_mode r.mode LeaseMode.takeover || is_mode r.mode LeaseMode.transfer)
          && not (authorize r.holder r.mode))
        (invalid "lease holder is not authorized")
    if not (continues p r)
        then ok (false, record s { evidence = push_evidence s.evidence r })
        else (do check_mode s r p.holder; settle s r)

  unfoldable pub accept_lease :
      Capsule → LeaseRecord → (ℕ → LeaseMode → Bool) → Result (Bool × Capsule)
  accept_lease s r authorize = do
    check_schema s r
    check_ttl r
    p ← predecessor s r
    LeaseRecord.verify_with r (signer_of r p)
    finish s r authorize p

  -- `Capsule::new`
  unfoldable pub create : Genesis → LeaseRecord → Result Capsule
  create g grant = do
    Genesis.verify_genesis g
    let empty : Capsule = record {
      genesis = g;
      snapshots = [];
      leases = [];
      winner = none;
      labels = [];
      fork_counts = [];
      evidence = [];
    }
    accepted ← accept_lease empty grant (λ _ _. true)
    ok accepted.1
