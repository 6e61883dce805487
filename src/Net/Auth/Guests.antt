-- ===== src/Net/Auth/Guests.antt =====
-- The operations of `TrustStore` in crates/abra-net/src/auth.rs on guests: enrollment and bind
-- certificates.
use abra.Crates.{Crates}
use abra.Identity.{Identity, peer_id}
use abra.Prelude.{
  ℕ, Bytes, ascii, Bool, not, ◌&&◌, ◌||◌, ◌-◌, ◌*◌, Option, none, some, [], any, ◌==◌, nat_eq,
  bytes_eq, ltb, is_some_and, Result, ok, err, protocol, authentication, authorization, ◌>>=◌, ◌>>◌,
  refuse_if, ok_or, if◌then◌else◌,
}
use abra.Prelude.Map.{get, contains_key, values}
use abra.Net.Time.{parse_time}
use abra.Net.Sorted.{insert, nat_ord, bytes_ord}
use abra.Net.Auth.Scopes.{Role, is_full, validate_scopes}
use abra.Net.Auth.Certificates.{BindCertificate, verify_certificate, sign_certificate}
use abra.Net.Auth.Enrollment.{EnrollBind, verify_bind}
use abra.Net.Auth.Trust.{
  TrustedPeer, StoredRevocation, StoredBindCertificate, TrustDisk, TrustStore, reload,
}
use abra.Net.Auth.Save.{save}
use abra.Net.Auth.Pairs.{commit, locked}

abbrev pub max_certificate_lifetime_ms : ℕ
max_certificate_lifetime_ms = 30 * 24 * 60 * 60 * 1000

unfoldable pub is_revoked : TrustDisk → Bytes → Bool
is_revoked d id = contains_key d.revoked id

-- Is there a revocation by the issuer of this guest's token?
unfoldable pub has_revocation : TrustDisk → ℕ → Bytes → ℕ → Bool
has_revocation d issuer token guest =
    any
      (λ (stored : StoredRevocation).
        stored.revocation.issuer == issuer
        && (stored.revocation.token_id == token && stored.revocation.guest_peer_id == guest))
      (values d.revocations)

-- The peer that `install_bind_certificate` inserts.
unfoldable pub certified_guest : BindCertificate → TrustedPeer
certified_guest x = record {
  peer_id = x.guest_peer_id;
  name = x.name;
  role = Role.guest;
  x25519_pk = x.x25519_pk;
  relay_key = none;
  token_id = some x.token_id;
  scopes = some x.scopes;
  expires_at = some x.expires_at;
  addresses = [];
}

unfoldable pub stored_certificate : ℕ → BindCertificate → StoredBindCertificate
stored_certificate issuer x = record { issuer = issuer; certificate = x }

unfoldable pub or_label : Option Bytes → Bytes → Bytes
or_label none label = label
or_label (some name) label = name

-- The peer that `bind_enrollment` inserts.
unfoldable pub enrolled_guest : EnrollBind → TrustedPeer
enrolled_guest b = record {
  peer_id = b.guest_peer_id;
  name = or_label b.name b.token.label;
  role = Role.guest;
  x25519_pk = b.x25519_pk;
  relay_key = some b.relay_discovery_key;
  token_id = some b.token.token_id;
  scopes = some b.token.scopes;
  expires_at = some b.token.expires_at;
  addresses = b.addresses;
}

-- The audience and the bind window of a token.
unfoldable pub check_audience : EnrollBind → ℕ → TrustDisk → Option ℕ → Result (Unit {0})
check_audience b now d (some audience) =
    refuse_if (not (audience == b.guest_peer_id)) (authorization "token audience mismatch")
check_audience b now d none = do
  text ← ok_or b.token.bind_by (protocol "unbound token lacks bind_by")
  until ← parse_time text
  refuse_if (ltb until now) (authorization "bind window expired")
  refuse_if (is_some_and (get d.bound_tokens b.token.token_id) (λ p. not (p == b.guest_peer_id)))
      (authorization "token already bound")

unfoldable pub bind_guest : EnrollBind → TrustDisk → TrustDisk
bind_guest b d = record d {
  bound_tokens = insert d.bound_tokens b.token.token_id b.guest_peer_id;
  peers = insert d.peers b.guest_peer_id (enrolled_guest b);
}

unfoldable pub add_certificate : ℕ → BindCertificate → TrustDisk → TrustDisk
add_certificate issuer x d = record d {
  bind_certificates = insert d.bind_certificates x.guest_peer_id (stored_certificate issuer x);
}

module _ ⦃c : Crates⦄ where
  -- The body of `install_bind_certificate`
  unfoldable pub install : ℕ → BindCertificate → ℕ → TrustDisk → Result (Unit {0} × TrustDisk)
  install issuer x now d = do
    issuer_peer ← ok_or (get d.peers issuer) (authorization "untrusted bind certificate issuer")
    refuse_if (not (is_full issuer_peer.role)) (authorization "bind certificate issuer is not full")
    verify_certificate x issuer
    expires_at ← parse_time x.expires_at
    refuse_if (ltb expires_at now) (authorization "bind certificate expired")
    bound_at ← parse_time x.bound_at
    refuse_if (ltb max_certificate_lifetime_ms (expires_at - bound_at))
        (authorization "bind certificate lifetime exceeds 30 days")
    refuse_if (is_revoked d x.token_id) (authorization "token revoked")
    refuse_if (has_revocation d issuer x.token_id x.guest_peer_id) (authorization "token revoked")
    refuse_if (is_some_and (get d.peers x.guest_peer_id) (λ peer. is_full peer.role))
        (authorization "bind certificate subject is already full")
    validate_scopes x.scopes
    ok (
      tt,
      add_certificate issuer x
          (record d { peers = insert d.peers x.guest_peer_id (certified_guest x) }),
    )

  unfoldable pub install_bind_certificate :
      ℕ → BindCertificate → ℕ → ℕ → TrustStore → Result (Unit {0}) × TrustStore
  install_bind_certificate issuer x now clock s =
      if not (x.record_type == ascii "bind-cert")
      then (err (protocol "invalid bind certificate type"), s)
      else locked clock (install issuer x now) s

  -- What `bind_enrollment` tests before it changes the state.
  unfoldable pub check_bind : EnrollBind → ℕ → ℕ → Identity → TrustDisk → Result (Unit {0})
  check_bind b authenticated now issuer d = do
    refuse_if (not (authenticated == b.guest_peer_id))
        (authentication "enroll bind differs from transport")
    verify_bind b now
    refuse_if (not (peer_id issuer == b.token.issuer))
        (authentication "bind certificate signer is not token issuer")
    refuse_if
        (is_revoked d b.token.token_id
          || has_revocation d b.token.issuer b.token.token_id b.guest_peer_id)
        (authorization "token revoked")
    check_audience b now d b.token.audience

  unfoldable pub certify : EnrollBind → ℕ → Identity → Result BindCertificate
  certify b now issuer =
      sign_certificate b.token.token_id b.guest_peer_id now (or_label b.name b.token.label)
        b.x25519_pk b.token.scopes b.token.expires_at issuer

  -- The rest of `bind_enrollment`, after the first `save`
  unfoldable pub finish_bind :
      ℕ → Identity → Result BindCertificate → TrustStore → Result BindCertificate × TrustStore
  finish_bind clock issuer (err e) s = (err e, s)
  finish_bind clock issuer (ok x) s =
      commit clock s (ok (x, add_certificate (peer_id issuer) x s.disk))

  unfoldable pub bind_checked :
      EnrollBind
      → ℕ
      → Identity
      → ℕ
      → TrustStore
      → Result (Unit {0})
      → Result BindCertificate × TrustStore
  bind_checked b now issuer clock s (err e) = (err e, s)
  bind_checked b now issuer clock s (ok u) =
      finish_bind clock issuer (certify b now issuer)
        (save clock (record s { disk = bind_guest b s.disk }))

  unfoldable pub bind_enrollment :
      EnrollBind → ℕ → ℕ → Identity → ℕ → TrustStore → Result BindCertificate × TrustStore
  bind_enrollment b authenticated now issuer clock s =
      bind_checked b now issuer clock (reload s)
        (check_bind b authenticated now issuer (reload s).disk)
