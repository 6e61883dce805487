-- ===== src/Net/Auth/Pairs.antt =====
-- The operations of `TrustStore` in crates/abra-net/src/auth.rs on peers and pairing. Each returns
-- its result beside the handle and the file as it leaves them, also where it fails; `clock` is what
-- `abra_core::now_ms` gives when it saves.
use abra.Crates.{Crates}
use abra.Prelude.{
  ℕ, Bytes, ascii, Bool, true, false, not, ◌&&◌, ◌||◌, ◌+◌, ◌%◌, ◌^◌, Option, none, some, List, [],
  ◌∷◌, Eq, ◌==◌, nat_eq, bytes_eq, ltb, Result, ok, err, authentication, authorization, ◌>>=◌, ◌>>◌,
  refuse_if, ok_or, if◌then◌else◌,
}
use abra.Prelude.Map.{get, contains_key, keys, values}
use abra.Net.Time.{parse_time}
use abra.Net.Sorted.{Ord, BTreeSet, insert, remove, retain_entries, nat_ord, bytes_ord}
use abra.Net.Auth.Scopes.{Role, MeshProfile}
use abra.Net.Auth.Signing.{clock_skew_ms}
use abra.Net.Auth.Pairing.{PairTicket, PairRequest, PairAccept, PairConfirm, verify_request}
use abra.Net.Auth.Trust.{
  LocalRole, TrustedPeer, StoredBindCertificate, TrustDisk, TrustStore, reload, version_of,
}
use abra.Net.Auth.Save.{save}

-- The functions of crates/abra-net/src/transport.rs on dial hints. They parse the addresses by the
-- iroh crate.
pub record Hints : Type 0 where
  pub validate_peer_address : Bytes → Result (Unit {0})
  pub merge_peer_address_hints : Bytes → Bytes → Option Bytes
  pub peer_address_has_direct_hint : Bytes → Bool

module _ {ℓ} {A : Type ℓ} where
  -- The end of an operation: what succeeds is saved.
  unfoldable pub commit : ℕ → TrustStore → Result (A × TrustDisk) → Result A × TrustStore
  commit clock s (err e) = (err e, s)
  commit clock s (ok (a, d)) = (ok a, save clock (record s { disk = d }))

  -- Under its lock, an operation first reads the file.
  unfoldable pub locked :
      ℕ → (TrustDisk → Result (A × TrustDisk)) → TrustStore → Result A × TrustStore
  unfolding commit reload
  locked clock body s = commit clock (reload s) (body (reload s).disk)

abbrev pub add {ℓ} : {K : Type ℓ} → ⦃keys : Eq K⦄ → ⦃order : Ord K⦄ → BTreeSet K → K → BTreeSet K
add set k = insert set k tt

unfoldable pub set_mesh_profile : MeshProfile → ℕ → TrustStore → Result (Unit {0}) × TrustStore
set_mesh_profile profile clock s =
    commit clock s (ok (tt, record s.disk { mesh_profile = profile }))

unfoldable pub set_local_role : LocalRole → ℕ → TrustStore → Result (Unit {0}) × TrustStore
set_local_role role clock s = commit clock s (ok (tt, record s.disk { local_role = role }))

-- `insert`, on the handle's state as it is
unfoldable pub insert_peer : TrustedPeer → ℕ → TrustStore → Result (Unit {0}) × TrustStore
insert_peer p clock s = commit clock s (do
  refuse_if
      (contains_key s.disk.peer_versions p.peer_id && not (contains_key s.disk.peers p.peer_id))
      (authorization "peer was removed; pair again with a new ticket")
  ok (tt, record s.disk { peers = insert s.disk.peers p.peer_id p }))

unfoldable pub advance_peer_version : TrustDisk → ℕ → TrustDisk
advance_peer_version d peer = record d {
  peer_versions = insert d.peer_versions peer ((version_of d peer + 1) % 2 ^ 64);
}

abbrev add_some : BTreeSet Bytes → Option Bytes → BTreeSet Bytes
add_some set none = set
add_some set (some k) = add set k

-- The tokens of the certificates that the peer has issued.
unfoldable pub revoke_issued : ℕ → List StoredBindCertificate → BTreeSet Bytes → BTreeSet Bytes
revoke_issued peer [] set = set
revoke_issued peer (stored ∷ list) set =
    revoke_issued peer list
      (if stored.issuer == peer then add set stored.certificate.token_id else set)

unfoldable pub add_all : BTreeSet Bytes → List Bytes → BTreeSet Bytes
add_all set [] = set
add_all set (k ∷ list) = add_all (add set k) list

-- What `remove_peer` does to the state, for the peer that it has found.
unfoldable pub removed_peer : ℕ → TrustedPeer → TrustDisk → TrustDisk
removed_peer peer removed d =
    let d' = advance_peer_version d peer in
    record d' {
      peers = remove d.peers peer;
      peer_pair_tickets = remove d.peer_pair_tickets peer;
      cancelled_pairs = add_all (add_some d.cancelled_pairs (get d.peer_pair_tickets peer)) (
          keys (
            retain_entries (λ t (pending : TrustedPeer). pending.peer_id == peer)
              d.awaiting_pair_confirm));
      revoked =
          revoke_issued peer (values d.bind_certificates) (add_some d.revoked removed.token_id);
      used_tickets = add_all d.used_tickets (keys d.pending_tickets);
      awaiting_pair_confirm =
          retain_entries (λ t (pending : TrustedPeer). not (pending.peer_id == peer))
            d.awaiting_pair_confirm;
    }

unfoldable pub remove_found : ℕ → ℕ → Option TrustedPeer → TrustStore → Result Bool × TrustStore
remove_found peer clock none s = (ok false, s)
remove_found peer clock (some removed) s =
    (ok true, reload (save clock (record s { disk = removed_peer peer removed s.disk })))

unfoldable pub remove_peer : ℕ → ℕ → TrustStore → Result Bool × TrustStore
remove_peer peer clock s = remove_found peer clock (get (reload s).disk.peers peer) (reload s)

unfoldable pub register_ticket : PairTicket → ℕ → TrustStore → Result (Unit {0}) × TrustStore
register_ticket ticket clock s =
    locked clock
      (λ d.
        ok (tt, record d { pending_tickets = insert d.pending_tickets ticket.ticket_id ticket }))
      s

-- A peer that is trusted in full.
unfoldable pub paired : ℕ → Bytes → ℕ → Option ℕ → List Bytes → TrustedPeer
paired peer_id name x25519_pk relay_key addresses = record {
  peer_id = peer_id;
  name = name;
  role = Role.full;
  x25519_pk = x25519_pk;
  relay_key = relay_key;
  token_id = none;
  scopes = none;
  expires_at = none;
  addresses = addresses;
}

-- `peers.insert`, under a new version and the ticket of the pairing
unfoldable pub trust_paired : Bytes → TrustedPeer → TrustDisk → TrustDisk
trust_paired ticket peer d =
    let d' = advance_peer_version d peer.peer_id in
    record d' {
      peer_pair_tickets = insert d.peer_pair_tickets peer.peer_id ticket;
      peers = insert d.peers peer.peer_id peer;
    }

unfoldable pub spend_ticket : Bytes → TrustDisk → TrustDisk
spend_ticket ticket d = record d {
  used_tickets = add d.used_tickets ticket;
  pending_tickets = remove d.pending_tickets ticket;
}

unfoldable pub await_confirm : Bytes → TrustedPeer → TrustDisk → TrustDisk
await_confirm ticket peer d = record d {
  awaiting_pair_confirm = insert d.awaiting_pair_confirm ticket peer;
}

module _ ⦃hints : Hints⦄ where
  unfoldable pub validate_addresses : List Bytes → Result (Unit {0})
  validate_addresses [] = ok tt
  validate_addresses (address ∷ list) = do
    hints.validate_peer_address address
    validate_addresses list

  module _ ⦃c : Crates⦄ where
    unfoldable pub accept_request :
        PairRequest → ℕ → ℕ → Bool → (ℕ → ℕ → Bool) → TrustDisk → Result (PairAccept × TrustDisk)
    accept_request request authenticated now confirm_immediately confirm d = do
      refuse_if (not (authenticated == request.peer_id))
          (authentication "pair request differs from transport")
      verify_request request
      validate_addresses request.addresses
      ticket ←
          ok_or (get d.pending_tickets request.ticket_id) (authorization "ticket is not pending")
      refuse_if (contains_key d.used_tickets request.ticket_id)
          (authorization "ticket already used")
      expires ← parse_time ticket.expires_at
      refuse_if (ltb (clock_skew_ms + expires) now) (authorization "ticket expired")
      refuse_if (not (confirm ticket.peer_id request.peer_id)) (authorization "pairing declined")
      let peer =
          paired request.peer_id request.name request.x25519_pk request.relay_key request.addresses
      ok (
        record {
          message_type = ascii "pair-accept";
          peer_id = ticket.peer_id;
          name = ticket.name;
          nonce = request.nonce;
        },
        if confirm_immediately
            then trust_paired request.ticket_id peer (spend_ticket request.ticket_id d)
            else await_confirm request.ticket_id peer (spend_ticket request.ticket_id d),
      )

    unfoldable pub accept_pair_request :
        PairRequest
        → ℕ
        → ℕ
        → Bool
        → (ℕ → ℕ → Bool)
        → ℕ
        → TrustStore
        → Result PairAccept × TrustStore
    accept_pair_request request authenticated now confirm_immediately confirm clock s =
        locked clock (accept_request request authenticated now confirm_immediately confirm) s

-- `confirm_pair` for what it has taken out of the awaited pairings: the entry is gone from the
-- handle's state also where the operation fails.
unfoldable pub confirm_found :
    Bytes → ℕ → ℕ → Option TrustedPeer → TrustStore → Result (Unit {0}) × TrustStore
confirm_found ticket authenticated clock none s =
    if contains_key s.disk.peers authenticated
    then (ok tt, s)
    else (err (authorization "pair confirmation is not pending"), s)
confirm_found ticket authenticated clock (some peer) s =
    let d = record s.disk { awaiting_pair_confirm = remove s.disk.awaiting_pair_confirm ticket } in
    if peer.peer_id == authenticated
    then (ok tt, save clock (record s { disk = trust_paired ticket peer d }))
    else (err (authentication "pair confirmation differs from transport"), record s { disk = d })

unfoldable pub confirm_pair : PairConfirm → ℕ → ℕ → TrustStore → Result (Unit {0}) × TrustStore
confirm_pair confirm authenticated clock s =
    if contains_key (reload s).disk.cancelled_pairs confirm.ticket_id
    then (err (authorization "pair confirmation was revoked"), reload s)
    else confirm_found confirm.ticket_id authenticated clock
        (get (reload s).disk.awaiting_pair_confirm confirm.ticket_id) (reload s)

unfoldable pub join : PairTicket → PairAccept → TrustDisk → Result (PairConfirm × TrustDisk)
join ticket accept d = do
  refuse_if (contains_key d.cancelled_pairs ticket.ticket_id)
      (authorization "pair ticket was revoked")
  ok (
    record { message_type = ascii "pair-confirm"; ticket_id = ticket.ticket_id },
    trust_paired ticket.ticket_id
        (paired ticket.peer_id accept.name ticket.x25519_pk ticket.relay_key ticket.addresses) d,
  )

unfoldable pub complete_pair_as_joiner :
    PairTicket → PairAccept → Bytes → ℕ → TrustStore → Result PairConfirm × TrustStore
complete_pair_as_joiner ticket accept expected_nonce clock s =
    if not (accept.peer_id == ticket.peer_id) || not (accept.nonce == expected_nonce)
    then (err (authentication "pair accept issuer mismatch"), s)
    else locked clock (join ticket accept) s
