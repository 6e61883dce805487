-- ===== src/Net/Auth/History/Tickets.antt =====
-- A pair ticket is accepted at most once (crates/abra-net/src/auth.rs).
use abra.Crates.{Crates}
use abra.Prelude.{
  ℕ, ◌≡◌, refl, Bytes, Bool, true, false, not, ◌||◌, List, ◌==◌, nat_eq, bytes_eq, Result, ok, err,
  is_ok, >>=-eq-ok, >>-parts, refuse_if, ok_or, arith, Result-cases, inl, inr, ltb, ◌+◌,
}
use abra.Prelude.Map.{get, contains_key}
use abra.Net.Time.{parse_time}
use abra.Net.Sorted.{get-insert, bytes_ord}
use abra.Net.Auth.Signing.{clock_skew_ms}
use abra.Net.Auth.Pairing.{PairRequest, PairAccept, verify_request}
use abra.Net.Auth.Trust.{TrustDisk, TrustStore, read_disk, reload}
use abra.Net.Auth.Trust.Fields.{merged_used}
use abra.Net.Auth.Save.{saved, save, prune_expired, enforce_limits, remove_revoked_guests}
use abra.Net.Auth.Pairs.{
  Hints, commit, locked, advance_peer_version, trust_paired, spend_ticket, await_confirm,
  validate_addresses, accept_request, accept_pair_request,
}
use abra.Net.Auth.History.{Call, run_calls}
use abra.Net.Auth.History.Keeps.{run_calls-keeps}

abbrev IsUsed : Bytes → TrustDisk → Type 0
IsUsed ticket d = contains_key d.used_tickets ticket ≡ true

saved-IsUsed :
    (ticket : Bytes) (now : ℕ) (mine theirs : TrustDisk)
    → (contains_key mine.used_tickets ticket || contains_key theirs.used_tickets ticket) ≡ true
    → IsUsed ticket (saved now mine theirs)
unfolding saved remove_revoked_guests enforce_limits prune_expired
saved-IsUsed ticket now mine theirs h = ground (arith, merged_used mine theirs ticket)

module _ ⦃hints : Hints⦄ ⦃c : Crates⦄ where
  accept_request-IsUsed :
      (r : PairRequest) (from now : ℕ) (at_once : Bool) (confirm : ℕ → ℕ → Bool) (d d' : TrustDisk)
      (a : PairAccept)
      → accept_request r from now at_once confirm d ≡ ok (a, d')
      → IsUsed r.ticket_id d'
  unfolding accept_request trust_paired spend_ticket await_confirm advance_peer_version contains_key
  accept_request-IsUsed r from now at_once confirm d d' a h =
      let (h0, h1) = >>-parts (refuse_if (not (from == r.peer_id)) _) _ h in
      let (h2, h3) = >>-parts (verify_request r) _ h1 in
      let (h4, h5) = >>-parts (validate_addresses r.addresses) _ h3 in
      let (ticket, found, h6) = >>=-eq-ok (ok_or (get d.pending_tickets r.ticket_id) _) _ h5 in
      let (h7, h8) = >>-parts (refuse_if (contains_key d.used_tickets r.ticket_id) _) _ h6 in
      let (expires, parsed, h9) = >>=-eq-ok (parse_time ticket.expires_at) _ h8 in
      let (h10, h11) = >>-parts (refuse_if (ltb (clock_skew_ms + expires) now) _) _ h9 in
      let (h12, h13) = >>-parts (refuse_if (not (confirm ticket.peer_id r.peer_id)) _) _ h11 in
      ground (
        arith,
        h13,
        get-insert d.used_tickets r.ticket_id r.ticket_id tt,
        bytes_eq.same_iff r.ticket_id r.ticket_id,
      )

  used-accept_request :
      (r : PairRequest) (from now : ℕ) (at_once : Bool) (confirm : ℕ → ℕ → Bool) (d : TrustDisk)
      → IsUsed r.ticket_id d
      → is_ok (accept_request r from now at_once confirm d) ≡ false
  unfolding accept_request
  used-accept_request r from now at_once confirm d used =
      elim (Result-cases (accept_request r from now at_once confirm d)) [
        | inl (e, failed) ↦ rw failed refl
        | inr (done, h) ↦
            let (h0, h1) = >>-parts (refuse_if (not (from == r.peer_id)) _) _ h in
            let (h2, h3) = >>-parts (verify_request r) _ h1 in
            let (h4, h5) = >>-parts (validate_addresses r.addresses) _ h3 in
            let (ticket, found, h6) =
              >>=-eq-ok (ok_or (get d.pending_tickets r.ticket_id) _) _ h5 in
            let (h7, h8) = >>-parts (refuse_if (contains_key d.used_tickets r.ticket_id) _) _ h6 in
            absurd (ground (arith, h7))
      ]

  accept_pair_request-IsUsed :
      (r : PairRequest) (from now : ℕ) (at_once : Bool) (confirm : ℕ → ℕ → Bool) (clock : ℕ)
      (s : TrustStore)
      → is_ok (accept_pair_request r from now at_once confirm clock s).0 ≡ true
      → IsUsed r.ticket_id
          (read_disk (accept_pair_request r from now at_once confirm clock s).1.file)
  unfolding accept_pair_request locked commit save read_disk
  accept_pair_request-IsUsed r from now at_once confirm clock s done =
      elim (Result-cases (accept_request r from now at_once confirm (reload s).disk)) [
        | inl (e, failed) ↦ absurd (ground (arith, failed))
        | inr ((a, d), accepted) ↦ rw accepted (
            saved-IsUsed r.ticket_id clock d (read_disk s.file) (
              ground (
                arith,
                accept_request-IsUsed r from now at_once confirm (reload s).disk d a accepted,
              )))
      ]

  -- After a pair request that was accepted, whatever calls follow on any handles of the device, no
  -- request with that ticket is accepted again, by any handle, at any time and from any peer.
  pub accept_pair_request-once :
      (r q : PairRequest) (from from' now now' : ℕ) (at_once at_once' : Bool)
      (confirm confirm' : ℕ → ℕ → Bool) (clock clock' : ℕ) (s : TrustStore) (calls : List Call)
      (disks : ℕ → TrustDisk) (mine : TrustDisk)
      → is_ok (accept_pair_request r from now at_once confirm clock s).0 ≡ true
      → q.ticket_id ≡ r.ticket_id
      → let file =
          run_calls calls disks (accept_pair_request r from now at_once confirm clock s).1.file in
        is_ok
          (accept_pair_request q from' now' at_once' confirm' clock'
            (record { disk = mine; file = file })).0
        ≡ false
  unfolding accept_pair_request locked reload
  accept_pair_request-once r q from from' now now' at_once at_once' confirm confirm' clock clock' s
        calls disks mine done same =
      let file =
        run_calls calls disks (accept_pair_request r from now at_once confirm clock s).1.file in
      let used =
        run_calls-keeps (IsUsed r.ticket_id)
          (λ now mine theirs h. saved-IsUsed r.ticket_id now mine theirs (ground arith)) calls disks
          _ (accept_pair_request-IsUsed r from now at_once confirm clock s done) in
      refused (accept_request q from' now' at_once' confirm' (read_disk file))
        (used-accept_request q from' now' at_once' confirm' (read_disk file) (rw same used))
    where
      refused :
          (x : Result (PairAccept × TrustDisk))
          → is_ok x ≡ false
          → is_ok
              (commit clock'
                (reload (record {
                  disk = mine;
                  file =
                      run_calls calls disks
                        (accept_pair_request r from now at_once confirm clock s).1.file;
                }))
                x).0
            ≡ false
      refused (err e) h = refl
      refused (ok v) h = cc
