-- ===== src/Net/Auth/Revocations.antt =====
-- The operations of `TrustStore` in crates/abra-net/src/auth.rs on revocations and control nonces.
use abra.Crates.{Crates}
use abra.Identity.{Identity, peer_id}
use abra.Prelude.{
  ℕ, Bytes, Bool, true, false, not, ◌&&◌, ◌||◌, ◌-◌, Option, none, some, List, [], ◌∷◌, ◌++◌, any,
  map, take, retain, length, is_ok, ◌==◌, nat_eq, bytes_eq, ltb, leb, is_some, is_some_and,
  is_none_or, Result, ok, err, protocol, authorization, ◌>>=◌, if◌then◌else◌,
}
use abra.Prelude.Map.{Map, get, contains_key, values}
use abra.Net.Time.{parse_time, format_time}
use abra.Net.Sorted.{insert, remove, retain_entries, nat_ord, bytes_ord}
use abra.Net.Auth.Scopes.{is_full, is_guest}
use abra.Net.Auth.Signing.{plus}
use abra.Net.Auth.Certificates.{Revocation, verify_at, sign_revocation}
use abra.Net.Auth.Trust.{
  TrustedPeer, StoredRevocation, StoredBindCertificate, TrustDisk, TrustStore, reload,
}
use abra.Net.Auth.Save.{save, lasts, time_or_zero}
use abra.Net.Auth.Pairs.{commit, add}
use abra.Net.Auth.Guests.{max_certificate_lifetime_ms}

abbrev pub max_revocations_per_message : ℕ
max_revocations_per_message = 128

-- The stable sort by `Reverse(parse_time(revoked_at).unwrap_or(0))`, by insertion.
unfoldable pub insert_newest : Revocation → List Revocation → List Revocation
insert_newest r [] = r ∷ []
insert_newest r (q ∷ list) =
    let rest = insert_newest r list in
    if ltb (time_or_zero (parse_time r.revoked_at)) (time_or_zero (parse_time q.revoked_at))
    then q ∷ rest
    else r ∷ (q ∷ list)

unfoldable pub newest_first : List Revocation → List Revocation
newest_first [] = []
newest_first (r ∷ list) = insert_newest r (newest_first list)

unfoldable pub current_revocations : TrustDisk → ℕ → List Revocation
current_revocations d now = take max_revocations_per_message (
    newest_first (
      map (λ (stored : StoredRevocation). stored.revocation)
        (retain (λ (stored : StoredRevocation). lasts (parse_time stored.relevant_until) now)
          (values d.revocations))))

-- `p.token_id.as_deref() == Some(id)`
unfoldable pub has_token : Bytes → TrustedPeer → Bool
has_token id p = is_some_and p.token_id (λ token. token == id)

-- The guest's token in `is_revoked_guest`
unfoldable pub guest_token : Option TrustedPeer → Option Bytes
guest_token none = none
guest_token (some trusted) = if is_guest trusted.role then trusted.token_id else none

unfoldable pub is_revoked_guest : TrustDisk → ℕ → ℕ → Bool
is_revoked_guest d peer now =
    let token = guest_token (get d.peers peer) in
    is_some_and token (λ t. contains_key d.revoked t)
    || any
        (λ (stored : StoredRevocation).
          stored.revocation.guest_peer_id == peer
          && (is_none_or token (λ t. stored.revocation.token_id == t)
              && lasts (parse_time stored.relevant_until) now))
        (values d.revocations)

-- `.filter(…)` on an option
abbrev filter {ℓ} : {A : Type ℓ} → (A → Bool) → Option A → Option A
filter p none = none
filter p (some a) = if p a then some a else none

-- The certificate of the record's guest, from its issuer and for its token.
unfoldable pub matching_certificate : TrustDisk → Revocation → Option StoredBindCertificate
matching_certificate d r =
    filter
      (λ (stored : StoredBindCertificate).
        stored.issuer == r.issuer && stored.certificate.token_id == r.token_id)
      (get d.bind_certificates r.guest_peer_id)

unfoldable pub relevant_until : Option StoredBindCertificate → Option StoredRevocation → ℕ → Bytes
relevant_until (some stored) existing now = stored.certificate.expires_at
relevant_until none (some stored) now = stored.relevant_until
relevant_until none none now = format_time (plus now max_certificate_lifetime_ms)

-- The end: only what has changed is saved.
unfoldable pub save_changed : ℕ → TrustStore → Bool × TrustDisk → Result (Unit {0}) × TrustStore
save_changed clock s (changed, d) =
    (ok tt, if changed then save clock (record s { disk = d }) else record s { disk = d })

module _ ⦃c : Crates⦄ where
  unfoldable pub revocation_key : ℕ → Bytes → Bytes
  revocation_key issuer token_id = c.hex32 issuer ++ (b':' ∷ token_id)

  unfoldable pub existing_revocation : TrustDisk → Revocation → Option StoredRevocation
  existing_revocation d r =
      filter
        (λ (stored : StoredRevocation).
          stored.revocation.issuer == r.issuer
          && stored.revocation.guest_peer_id == r.guest_peer_id)
        (get d.revocations (revocation_key r.issuer r.token_id))

  -- What an accepted record changes.
  unfoldable pub apply_record : Revocation → ℕ → TrustDisk → TrustDisk
  apply_record r now d = record d {
    revocations = insert d.revocations (revocation_key r.issuer r.token_id) (record {
      revocation = r;
      relevant_until = relevant_until (matching_certificate d r) (existing_revocation d r) now;
    });
    revoked = add d.revoked r.token_id;
    peers =
        retain_entries
          (λ peer_id p. not (peer_id == r.guest_peer_id) || not (has_token r.token_id p)) d.peers;
    bind_certificates = remove d.bind_certificates r.guest_peer_id;
  }

  -- The two tests that skip a record.
  unfoldable pub is_applicable : Revocation → ℕ → TrustDisk → Bool
  is_applicable r now d =
      is_ok (verify_at r now)
      && (is_some_and (get d.peers r.issuer) (λ peer. is_full peer.role)
          && (is_some (matching_certificate d r) || is_some (existing_revocation d r)))

  -- The loop, with `changed`
  unfoldable pub apply_records : List Revocation → ℕ → Bool × TrustDisk → Bool × TrustDisk
  apply_records [] now state = state
  apply_records (r ∷ records) now (changed, d) =
      apply_records records now
        (if is_applicable r now d then (true, apply_record r now d) else (changed, d))

  unfoldable pub apply_revocations :
      List Revocation → ℕ → ℕ → TrustStore → Result (Unit {0}) × TrustStore
  apply_revocations records now clock s =
      if ltb max_revocations_per_message (length records)
      then (err (protocol "revocation list exceeds 128 records"), s)
      else save_changed clock (reload s) (apply_records records now (false, (reload s).disk))

  -- `find`: the first certificate, by guest, of the token and the issuer
  unfoldable pub find_certificate :
      Bytes → ℕ → List StoredBindCertificate → Option StoredBindCertificate
  find_certificate id issuer [] = none
  find_certificate id issuer (stored ∷ list) =
      if stored.certificate.token_id == id && stored.issuer == issuer
      then some stored
      else find_certificate id issuer list

  unfoldable pub sign_found :
      Bytes
      → ℕ
      → Identity
      → Option StoredBindCertificate
      → Map Bytes StoredRevocation
      → Result (Map Bytes StoredRevocation)
  sign_found id now issuer none revocations = ok revocations
  sign_found id now issuer (some stored) revocations = do
    r ← sign_revocation id stored.certificate.guest_peer_id now issuer
    ok (
        insert revocations (revocation_key (peer_id issuer) id)
          (record { revocation = r; relevant_until = stored.certificate.expires_at }))

  unfoldable pub revoke : Bytes → ℕ → Identity → TrustDisk → Result (Unit {0} × TrustDisk)
  revoke id now issuer d = do
    revocations ←
        sign_found id now issuer (find_certificate id (peer_id issuer) (values d.bind_certificates))
          d.revocations
    ok (
      tt,
      record d {
        revoked = add d.revoked id;
        revocations = revocations;
        peers = retain_entries (λ k p. not (has_token id p)) d.peers;
        bound_tokens = remove d.bound_tokens id;
        bind_certificates =
            retain_entries
              (λ k (stored : StoredBindCertificate). not (stored.certificate.token_id == id))
              d.bind_certificates;
      },
    )

  -- Where the signature fails, the handle's state has the token revoked already; the next operation
  -- reads the file again.
  unfoldable pub revoke_token :
      Bytes → ℕ → Identity → ℕ → TrustStore → Result (Unit {0}) × TrustStore
  revoke_token id now issuer clock s =
      let d = (reload s).disk in
      let marked = record s { disk = record d { revoked = add d.revoked id } } in
      commit clock marked (revoke id now issuer d)

-- `consume_control_nonce`, on the state that was read
unfoldable pub fresh_nonces : ℕ → TrustDisk → TrustDisk
fresh_nonces now d = record d {
  control_nonces = retain_entries (λ k t. leb (now - t) 600000) d.control_nonces;
}

unfoldable pub consume_fresh : Bytes → ℕ → ℕ → TrustStore → Result (Unit {0}) × TrustStore
consume_fresh nonce now clock s =
    if contains_key s.disk.control_nonces nonce
    then (err (authorization "replayed control"), s)
    else (
      ok tt,
      save clock (record s {
        disk = record s.disk { control_nonces = insert s.disk.control_nonces nonce now };
      }),
    )

unfoldable pub consume_control_nonce : Bytes → ℕ → ℕ → TrustStore → Result (Unit {0}) × TrustStore
consume_control_nonce nonce now clock s =
    consume_fresh nonce now clock (record s { disk = fresh_nonces now (reload s).disk })
