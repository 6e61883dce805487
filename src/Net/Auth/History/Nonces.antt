-- ===== src/Net/Auth/History/Nonces.antt =====
-- Control nonces (crates/abra-net/src/auth.rs).
use abra.Crates.{Crates}
use abra.Prelude.{
  ℕ, ◌-◌, ◌≤◌, ◌≡◌, refl, Bytes, true, false, Option, some, List, nat_eq, bytes_eq, leb, is_some,
  ok, is_ok, arith, Option-cases, inl, inr, if◌then◌else◌, is_none_or, Bool, [], ◌∷◌, all,
}
use abra.Prelude.Map.{get, contains_key}
use abra.Net.Sorted.{insert, get-insert, get-retain_kept, bytes_ord}
use abra.Net.Auth.Trust.{TrustDisk, TrustStore, read_disk, reload}
use abra.Net.Auth.Trust.Fields.{merged_nonces}
use abra.Net.Auth.Save.{saved, save, prune_expired, enforce_limits, remove_revoked_guests}
use abra.Net.Auth.Pairs.{Hints}
use abra.Net.Auth.Revocations.{fresh_nonces, consume_fresh, consume_control_nonce}
use abra.Net.Auth.History.{Call, run_calls}
use abra.Net.Auth.History.Removed.{saves}
use abra.Net.Auth.History.Keeps.{run_calls-keeps}

saved_nonces :
    (now : ℕ) (mine theirs : TrustDisk) (k : Bytes)
    → get (saved now mine theirs).control_nonces k ≡ (
        if is_some (get mine.control_nonces k)
        then get mine.control_nonces k
        else get theirs.control_nonces k)
unfolding saved remove_revoked_guests enforce_limits prune_expired
saved_nonces now mine theirs k = merged_nonces mine theirs k

-- The nonce is held, and was taken at most ten minutes before.
HoldsRecent : Bytes → ℕ → TrustDisk → Type 0
HoldsRecent nonce later d = (t : ℕ) × (get d.control_nonces nonce ≡ some t) × (later - t ≤ 600000)

-- A state that does not hold the nonce, or holds it as taken at most ten minutes before.
abbrev pub is_recent : Bytes → ℕ → ℕ × TrustDisk → Bool
is_recent nonce later (clock, mine) =
    is_none_or (get mine.control_nonces nonce) (λ t. leb (later - t) 600000)

saved-HoldsRecent :
    (nonce : Bytes) (later clock : ℕ) (mine theirs : TrustDisk)
    → is_recent nonce later (clock, mine) ≡ true
    → HoldsRecent nonce later theirs
    → HoldsRecent nonce later (saved clock mine theirs)
unfolding HoldsRecent
saved-HoldsRecent nonce later clock mine theirs recent (t, held, soon) =
    elim (Option-cases (get mine.control_nonces nonce)) [
      | inl absent ↦ (t, ground (arith, saved_nonces clock mine theirs nonce), soon)
      | inr (u, own) ↦ (u, ground (arith, saved_nonces clock mine theirs nonce), ground arith)
    ]

saves-HoldsRecent :
    (nonce : Bytes) (later : ℕ) (list : List (ℕ × TrustDisk)) (file : TrustDisk)
    → all (is_recent nonce later) list ≡ true
    → HoldsRecent nonce later file
    → HoldsRecent nonce later (saves list file)
unfolding saves
saves-HoldsRecent nonce later [] file recent h = h
saves-HoldsRecent nonce later ((clock, mine) ∷ list) file recent h =
    saves-HoldsRecent nonce later list (saved clock mine file) (ground arith)
      (saved-HoldsRecent nonce later clock mine file (ground arith) h)

consume-HoldsRecent :
    (nonce : Bytes) (now later clock : ℕ) (s : TrustStore)
    → (consume_control_nonce nonce now clock s).0 ≡ ok tt
    → later - now ≤ 600000
    → HoldsRecent nonce later (read_disk (consume_control_nonce nonce now clock s).1.file)
unfolding HoldsRecent consume_control_nonce consume_fresh reload read_disk save contains_key
consume-HoldsRecent nonce now later clock s done soon =
    elim (Option-cases (get (fresh_nonces now (reload s).disk).control_nonces nonce)) [
      | inr (t, taken) ↦ absurd (ground (arith, taken))
      | inl free ↦
          let d = fresh_nonces now (read_disk s.file) in
          let d' = record d { control_nonces = insert d.control_nonces nonce now } in
          let there : get (saved clock d' (read_disk s.file)).control_nonces nonce ≡ some now =
            ground (
              arith,
              saved_nonces clock d' (read_disk s.file) nonce,
              get-insert d.control_nonces nonce nonce now,
              bytes_eq.same_iff nonce nonce,
            ) in
          rw free (now, there, soon)
    ]

refused :
    (nonce : Bytes) (later clock : ℕ) (mine file : TrustDisk)
    → HoldsRecent nonce later file
    → is_ok (consume_control_nonce nonce later clock (record { disk = mine; file = some file })).0
      ≡ false
unfolding HoldsRecent consume_control_nonce consume_fresh reload read_disk contains_key
refused nonce later clock mine file (t, held, soon) =
    let kept : get (fresh_nonces later file).control_nonces nonce ≡ some t =
      unfold fresh_nonces in
      (get-retain_kept (λ (k : Bytes) (t : ℕ). leb (later - t) 600000) _ nonce t held
        (ground arith)) in
    rw kept refl

-- A nonce that is taken is refused to every handle of the device up to ten minutes later, whatever
-- saves come between by handles whose state does not hold it, or holds it as taken at most ten
-- minutes before the second attempt.
pub consume_control_nonce-once :
    (nonce : Bytes) (now later clock clock' : ℕ) (s : TrustStore) (list : List (ℕ × TrustDisk))
    (mine : TrustDisk)
    → (consume_control_nonce nonce now clock s).0 ≡ ok tt
    → later - now ≤ 600000
    → all (is_recent nonce later) list ≡ true
    → let file = saves list (read_disk (consume_control_nonce nonce now clock s).1.file) in
      is_ok (consume_control_nonce nonce later clock' (record { disk = mine; file = some file })).0
      ≡ false
consume_control_nonce-once nonce now later clock clock' s list mine done soon recent =
    refused nonce later clock' mine
      (saves list (read_disk (consume_control_nonce nonce now clock s).1.file))
      (saves-HoldsRecent nonce later list _ recent
        (consume-HoldsRecent nonce now later clock s done soon))

module _ ⦃hints : Hints⦄ ⦃c : Crates⦄ where
  -- No call takes a nonce out of the file, however old it is: what `retain` drops from the handle's
  -- state is merged in again.
  pub run_calls-nonce_stays :
      (calls : List Call) (disks : ℕ → TrustDisk) (file : Option TrustDisk) (nonce : Bytes)
      → contains_key (read_disk file).control_nonces nonce ≡ true
      → contains_key (read_disk (run_calls calls disks file)).control_nonces nonce ≡ true
  unfolding contains_key
  run_calls-nonce_stays calls disks file nonce h =
      run_calls-keeps (λ d. is_some (get d.control_nonces nonce) ≡ true)
        (λ now mine theirs held. ground (arith, saved_nonces now mine theirs nonce)) calls disks
        file h
