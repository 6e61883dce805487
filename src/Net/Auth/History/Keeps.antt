-- ===== src/Net/Auth/History/Keeps.antt =====
-- What every write of the trust file keeps, every history keeps (crates/abra-net/src/auth.rs).
use abra.Crates.{Crates}
use abra.Prelude.{
  ℕ, Bytes, ascii, Bool, true, false, not, ◌||◌, Option, none, some, List, [], ◌∷◌, ◌==◌, nat_eq,
  bytes_eq, length, ltb, Result, ok, err, if◌then◌else◌, Bool-cases, inl, inr,
}
use abra.Prelude.Map.{get, contains_key}
use abra.Net.Auth.Trust.{TrustedPeer, TrustDisk, TrustStore, read_disk, reload}
use abra.Net.Auth.Save.{saved, save}
use abra.Net.Auth.Pairs.{
  Hints, commit, locked, set_mesh_profile, set_local_role, insert_peer, remove_found, remove_peer,
  register_ticket, accept_pair_request, confirm_found, confirm_pair, complete_pair_as_joiner,
}
use abra.Net.Auth.Addresses.{update_found, update_addresses}
use abra.Identity.{Identity}
use abra.Net.Auth.Certificates.{BindCertificate, Revocation}
use abra.Net.Auth.Pairing.{PairTicket, PairAccept, PairConfirm}
use abra.Net.Auth.Enrollment.{EnrollBind}
use abra.Net.Auth.Guests.{
  install_bind_certificate, finish_bind, bind_checked, bind_enrollment, certify,
}
use abra.Net.Auth.Revocations.{
  max_revocations_per_message, apply_records, fresh_nonces, apply_revocations, save_changed,
  revoke_token, consume_fresh, consume_control_nonce,
}
use abra.Net.Auth.History.{Op, Call, run_op, run_calls}

module _ (P : TrustDisk → Type 0)
    (keeps : (now : ℕ) (mine theirs : TrustDisk) → P theirs → P (saved now mine theirs)) where
  abbrev Holds : TrustStore → Type 0
  Holds s = P (read_disk s.file)

  save-keeps : (clock : ℕ) (s : TrustStore) → Holds s → Holds (save clock s)
  unfolding save read_disk
  save-keeps clock s h = keeps clock s.disk (read_disk s.file) h

  commit-keeps {ℓ} :
      {A : Type ℓ} (clock : ℕ) (s : TrustStore) (r : Result (A × TrustDisk))
      → Holds s
      → Holds (commit clock s r).1
  unfolding commit
  commit-keeps clock s (err e) h = h
  commit-keeps clock s (ok (a, d)) h = save-keeps clock (record s { disk = d }) h

  locked-keeps {ℓ} :
      {A : Type ℓ} (clock : ℕ) (body : TrustDisk → Result (A × TrustDisk)) (s : TrustStore)
      → Holds s
      → Holds (locked clock body s).1
  unfolding locked reload
  locked-keeps clock body s h = commit-keeps clock (reload s) (body (reload s).disk) h

  remove_found-keeps :
      (peer clock : ℕ) (o : Option TrustedPeer) (s : TrustStore)
      → Holds s
      → Holds (remove_found peer clock o s).1
  unfolding remove_found reload
  remove_found-keeps peer clock none s h = h
  remove_found-keeps peer clock (some t) s h = save-keeps clock _ h

  confirm_found-keeps :
      (ticket : Bytes) (from clock : ℕ) (o : Option TrustedPeer) (s : TrustStore)
      → Holds s
      → Holds (confirm_found ticket from clock o s).1
  unfolding confirm_found
  confirm_found-keeps ticket from clock none s h =
      elim (Bool-cases (contains_key s.disk.peers from)) [ inl e ↦ rw e h | inr e ↦ rw e h ]
  confirm_found-keeps ticket from clock (some peer) s h = elim (Bool-cases (peer.peer_id == from)) [
    | inl e ↦ rw e (save-keeps clock _ h)
    | inr e ↦ rw e h
  ]

  changed-keeps :
      (clock : ℕ) (s : TrustStore) (r : Bool × TrustDisk)
      → Holds s
      → Holds (save_changed clock s r).1
  unfolding save_changed
  changed-keeps clock s (true, d) h = save-keeps clock _ h
  changed-keeps clock s (false, d) h = h

  fresh-keeps :
      (nonce : Bytes) (now clock : ℕ) (s : TrustStore)
      → Holds s
      → Holds (consume_fresh nonce now clock s).1
  unfolding consume_fresh
  fresh-keeps nonce now clock s h = elim (Bool-cases (contains_key s.disk.control_nonces nonce)) [
    | inl e ↦ rw e h
    | inr e ↦ rw e (save-keeps clock _ h)
  ]

  module _ ⦃hints : Hints⦄ ⦃c : Crates⦄ where
    update_found-keeps :
        (peer : ℕ) (list : List Bytes) (clock : ℕ) (o : Option TrustedPeer) (s : TrustStore)
        → Holds s
        → Holds (update_found peer list clock o s).1
    unfolding update_found
    update_found-keeps peer list clock none s h = h
    update_found-keeps peer list clock (some t) s h = commit-keeps clock s _ h

    bind_checked-keeps :
        (b : EnrollBind) (now : ℕ) (issuer : Identity) (clock : ℕ) (s : TrustStore)
        (r : Result (Unit {0}))
        → Holds s
        → Holds (bind_checked b now issuer clock s r).1
    unfolding bind_checked finish_bind
    bind_checked-keeps b now issuer clock s (err e) h = h
    bind_checked-keeps b now issuer clock s (ok u) h =
        finished _ (certify b now issuer) (save-keeps clock _ h)
      where
        finished :
            (t : TrustStore) (r : Result BindCertificate)
            → Holds t
            → Holds (finish_bind clock issuer r t).1
        finished t (err e) held = held
        finished t (ok x) held = commit-keeps clock t _ held

    confirm_pair-keeps :
        (confirm : PairConfirm) (from : ℕ) (clock : ℕ) (s : TrustStore)
        → Holds s
        → Holds (confirm_pair confirm from clock s).1
    unfolding confirm_pair reload
    confirm_pair-keeps confirm from clock s h =
        elim (Bool-cases (contains_key (reload s).disk.cancelled_pairs confirm.ticket_id)) [
          | inl e ↦ rw e h
          | inr e ↦ rw e (
              confirm_found-keeps confirm.ticket_id from clock
                (get (reload s).disk.awaiting_pair_confirm confirm.ticket_id) (reload s) h)
        ]

    complete_pair-keeps :
        (ticket : PairTicket) (accept : PairAccept) (nonce : Bytes) (clock : ℕ) (s : TrustStore)
        → Holds s
        → Holds (complete_pair_as_joiner ticket accept nonce clock s).1
    unfolding complete_pair_as_joiner
    complete_pair-keeps ticket accept nonce clock s h =
        elim (Bool-cases (not (accept.peer_id == ticket.peer_id) || not (accept.nonce == nonce))) [
          | inl e ↦ rw e h
          | inr e ↦ rw e (locked-keeps clock _ s h)
        ]

    install_bind_certificate-keeps :
        (issuer : ℕ) (x : BindCertificate) (now : ℕ) (clock : ℕ) (s : TrustStore)
        → Holds s
        → Holds (install_bind_certificate issuer x now clock s).1
    unfolding install_bind_certificate
    install_bind_certificate-keeps issuer x now clock s h =
        elim (Bool-cases (x.record_type == ascii "bind-cert")) [
          | inl e ↦ rw e (locked-keeps clock _ s h)
          | inr e ↦ rw e h
        ]

    apply_revocations-keeps :
        (records : List Revocation) (now : ℕ) (clock : ℕ) (s : TrustStore)
        → Holds s
        → Holds (apply_revocations records now clock s).1
    unfolding apply_revocations reload
    apply_revocations-keeps records now clock s h =
        elim (Bool-cases (ltb max_revocations_per_message (length records))) [
          | inl e ↦ rw e h
          | inr e ↦ rw e (
              changed-keeps clock (reload s) (apply_records records now (false, (reload s).disk)) h)
        ]

    -- One operation, on each of its branches.
    pub run_op-keeps : (op : Op) (clock : ℕ) (s : TrustStore) → Holds s → Holds (run_op op clock s)
    unfolding run_op reload read_disk set_mesh_profile set_local_role insert_peer remove_peer
        update_addresses register_ticket accept_pair_request bind_enrollment revoke_token
        consume_control_nonce
    run_op-keeps Op.reload_op clock s h = h
    run_op-keeps (Op.profile_op profile) clock s h = commit-keeps clock s _ h
    run_op-keeps (Op.role_op role) clock s h = commit-keeps clock s _ h
    run_op-keeps (Op.insert_op p) clock s h = commit-keeps clock s _ h
    run_op-keeps (Op.remove_op peer) clock s h =
        remove_found-keeps peer clock (get (reload s).disk.peers peer) (reload s) h
    run_op-keeps (Op.addresses_op peer []) clock s h = h
    run_op-keeps (Op.addresses_op peer (a ∷ list)) clock s h =
        update_found-keeps peer (a ∷ list) clock (get s.disk.peers peer) s h
    run_op-keeps (Op.register_op ticket) clock s h = locked-keeps clock _ s h
    run_op-keeps (Op.accept_op r from now at_once confirm) clock s h = locked-keeps clock _ s h
    run_op-keeps (Op.confirm_op confirm from) clock s h = confirm_pair-keeps confirm from clock s h
    run_op-keeps (Op.join_op ticket accept nonce) clock s h =
        complete_pair-keeps ticket accept nonce clock s h
    run_op-keeps (Op.bind_op b from now issuer) clock s h =
        bind_checked-keeps b now issuer clock (reload s) _ h
    run_op-keeps (Op.install_op issuer x now) clock s h =
        install_bind_certificate-keeps issuer x now clock s h
    run_op-keeps (Op.revoke_op id now issuer) clock s h = commit-keeps clock _ _ h
    run_op-keeps (Op.apply_op records now) clock s h = apply_revocations-keeps records now clock s h
    run_op-keeps (Op.nonce_op nonce now) clock s h =
        fresh-keeps nonce now clock (record s { disk = fresh_nonces now (reload s).disk }) h

    pub run_calls-keeps :
        (calls : List Call) (disks : ℕ → TrustDisk) (file : Option TrustDisk)
        → P (read_disk file)
        → P (read_disk (run_calls calls disks file))
    unfolding run_calls
    run_calls-keeps [] disks file h = h
    run_calls-keeps (call ∷ calls) disks file h =
        let s = run_op call.op call.clock (record { disk = disks call.handle; file = file }) in
        run_calls-keeps calls (λ i. if i == call.handle then s.disk else disks i) s.file
          (run_op-keeps call.op call.clock (record { disk = disks call.handle; file = file }) h)
