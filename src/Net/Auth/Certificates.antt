-- ===== src/Net/Auth/Certificates.antt =====
-- `BindCertificate` and `Revocation` of crates/abra-net/src/auth.rs.
use abra.Crates.{Crates}
use abra.Identity.{Identity, verify, sign, peer_id}
use abra.Canonical.Value.{string, Fields, end, field}
use abra.Capsule.Signed.{hash32, sig64}
use abra.Prelude.{
  ℕ, Bytes, ascii, Bool, true, not, ◌||◌, Option, none, some, length, ◌==◌, nat_eq, bytes_eq, ltb,
  Result, ok, protocol, ◌>>=◌, ◌>>◌, refuse_if,
}
use abra.Net.Time.{format_time, parse_time}
use abra.Net.Auth.Scopes.{Scopes}
use abra.Net.Auth.Signing.{clock_skew_ms, plus, unsigned, scopes_value}

pub record BindCertificate : Type 0 where
  pub record_type : Bytes
  pub token_id : Bytes
  pub guest_peer_id : ℕ
  pub bound_at : Bytes
  pub name : Bytes
  pub x25519_pk : ℕ
  pub scopes : Scopes
  pub expires_at : Bytes
  pub sig : ℕ

pub record Revocation : Type 0 where
  pub record_type : Bytes
  pub issuer : ℕ
  pub token_id : Bytes
  pub guest_peer_id : ℕ
  pub revoked_at : Bytes
  pub sig : ℕ

-- `hex::decode(id).map_or(true, |bytes| bytes.len() != 16)`
unfoldable pub bad_id : Option Bytes → Bool
bad_id none = true
bad_id (some bytes) = not (length bytes == 16)

module _ ⦃c : Crates⦄ where
  unfoldable pub certificate_fields : BindCertificate → Fields
  certificate_fields x = field (ascii "type") (string x.record_type) (
      field (ascii "token_id") (string x.token_id) (
        field (ascii "guest_peer_id") (hash32 x.guest_peer_id) (
          field (ascii "bound_at") (string x.bound_at) (
            field (ascii "name") (string x.name) (
              field (ascii "x25519_pk") (hash32 x.x25519_pk) (
                field (ascii "scopes") (scopes_value x.scopes) (
                  field (ascii "expires_at") (string x.expires_at)
                    (field (ascii "sig") (sig64 x.sig) end))))))))

  -- `BindCertificate::sign`
  unfoldable pub sign_certificate :
      Bytes → ℕ → ℕ → Bytes → ℕ → Scopes → Bytes → Identity → Result BindCertificate
  sign_certificate token_id guest_peer_id now name x25519_pk scopes expires_at issuer = do
    let x : BindCertificate = record {
      record_type = ascii "bind-cert";
      token_id = token_id;
      guest_peer_id = guest_peer_id;
      bound_at = format_time now;
      name = name;
      x25519_pk = x25519_pk;
      scopes = scopes;
      expires_at = expires_at;
      sig = 0;
    }
    payload ← unsigned (certificate_fields x) (ascii "sig")
    ok (record x { sig = sign issuer (ascii "bind-cert") payload })

  -- `BindCertificate::verify`
  unfoldable pub verify_certificate : BindCertificate → ℕ → Result (Unit {0})
  verify_certificate x issuer = do
    payload ← unsigned (certificate_fields x) (ascii "sig")
    verify issuer (ascii "bind-cert") payload x.sig

  unfoldable pub revocation_fields : Revocation → Fields
  revocation_fields r = field (ascii "type") (string r.record_type) (
      field (ascii "issuer") (hash32 r.issuer) (
        field (ascii "token_id") (string r.token_id) (
          field (ascii "guest_peer_id") (hash32 r.guest_peer_id) (
            field (ascii "revoked_at") (string r.revoked_at)
              (field (ascii "sig") (sig64 r.sig) end)))))

  -- `Revocation::sign`
  unfoldable pub sign_revocation : Bytes → ℕ → ℕ → Identity → Result Revocation
  sign_revocation token_id guest_peer_id now issuer = do
    let r : Revocation = record {
      record_type = ascii "revocation";
      issuer = peer_id issuer;
      token_id = token_id;
      guest_peer_id = guest_peer_id;
      revoked_at = format_time now;
      sig = 0;
    }
    payload ← unsigned (revocation_fields r) (ascii "sig")
    ok (record r { sig = sign issuer (ascii "revoke") payload })

  -- `Revocation::verify_at`
  unfoldable pub verify_at : Revocation → ℕ → Result (Unit {0})
  verify_at r now = do
    refuse_if (not (r.record_type == ascii "revocation") || bad_id (c.hex_decode r.token_id))
        (protocol "invalid revocation record")
    revoked_at ← parse_time r.revoked_at
    refuse_if (ltb (plus now clock_skew_ms) revoked_at)
        (protocol "revocation timestamp is in the future")
    payload ← unsigned (revocation_fields r) (ascii "sig")
    verify r.issuer (ascii "revoke") payload r.sig
