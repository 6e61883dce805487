-- ===== src/Net/Auth/Enrollment.antt =====
-- `EnrollmentToken` and `EnrollBind` of crates/abra-net/src/auth.rs.
use abra.Crates.{Crates}
use abra.Identity.{Identity, verify, sign, peer_id}
use abra.Canonical.Value.{string, array, object, Items, nil, cons, Fields, end, field}
use abra.Capsule.Signed.{u64, hash32, sig64}
use abra.Prelude.{
  ℕ, Bytes, ascii, not, Option, none, some, List, [], ◌∷◌, ◌++◌, ◌+◌, ◌*◌, ◌%◌, ◌^◌, min, ◌==◌,
  nat_eq, ltb, is_some_and, Result, ok, protocol, authorization, ◌>>=◌, ◌>>◌, refuse_if, ok_or,
}
use abra.Prelude.BigEndian.{to_be_bytes}
use abra.Net.Time.{format_time, parse_time}
use abra.Net.Auth.Scopes.{Scopes, validate_scopes}
use abra.Net.Auth.Signing.{
  clock_skew_ms, plus, unsigned, strings, scopes_value, optional, text_value, key_value, decode_id,
}

pub record Intro : Type 0 where
  pub peer_id : ℕ
  pub name : Bytes
  pub x25519_pk : ℕ
  pub relay_discovery_key : ℕ
  pub addresses : List Bytes

pub record EnrollmentToken : Type 0 where
  pub v : ℕ
  pub record_type : Bytes
  pub token_id : Bytes
  pub issuer : ℕ
  pub issued_at : Bytes
  pub expires_at : Bytes
  pub label : Bytes
  pub intro : List Intro
  pub audience : Option ℕ
  pub bind_by : Option Bytes
  pub scopes : Scopes
  pub sig : ℕ

pub record EnrollBind : Type 0 where
  pub message_type : Bytes
  pub token : EnrollmentToken
  pub guest_peer_id : ℕ
  pub name : Option Bytes
  pub x25519_pk : ℕ
  pub relay_discovery_key : ℕ
  pub addresses : List Bytes
  pub sig : ℕ

-- `audience.is_none().then(…)`
unfoldable pub bind_by_for : Option ℕ → ℕ → ℕ → Option Bytes
bind_by_for (some peer) now ttl = none
bind_by_for none now ttl = some (format_time ((now + min ttl 900000) % 2 ^ 64))

-- The test of the bind window in `EnrollmentToken::verify`.
unfoldable pub check_window : Option ℕ → Option Bytes → ℕ → Result (Unit {0})
check_window (some peer) bind_by issued = ok tt
check_window none bind_by issued = do
  text ← ok_or bind_by (protocol "unbound token lacks bind_by")
  until ← parse_time text
  refuse_if (ltb (plus issued 900000) until) (protocol "bind window exceeds 15m")

module _ ⦃c : Crates⦄ where
  unfoldable pub intro_fields : Intro → Fields
  intro_fields i = field (ascii "peer_id") (hash32 i.peer_id) (
      field (ascii "name") (string i.name) (
        field (ascii "x25519_pk") (hash32 i.x25519_pk) (
          field (ascii "relay_discovery_key") (hash32 i.relay_discovery_key)
            (field (ascii "addresses") (array (strings i.addresses)) end))))

  unfoldable pub intro_items : List Intro → Items
  intro_items [] = nil
  intro_items (i ∷ list) = cons (object (intro_fields i)) (intro_items list)

  unfoldable pub token_fields : EnrollmentToken → Fields
  token_fields x = field (ascii "v") (u64 x.v) (
      field (ascii "type") (string x.record_type) (
        field (ascii "token_id") (string x.token_id) (
          field (ascii "issuer") (hash32 x.issuer) (
            field (ascii "issued_at") (string x.issued_at) (
              field (ascii "expires_at") (string x.expires_at) (
                field (ascii "label") (string x.label) (
                  field (ascii "intro") (array (intro_items x.intro)) (
                    optional (ascii "audience") (key_value x.audience) (
                      optional (ascii "bind_by") (text_value x.bind_by) (
                        field (ascii "scopes") (scopes_value x.scopes)
                          (field (ascii "sig") (sig64 x.sig) end)))))))))))

  -- `EnrollmentToken::mint`, for a fresh id
  unfoldable pub mint_token :
      Bytes → Bytes → List Intro → Option ℕ → Scopes → ℕ → ℕ → Identity → Result EnrollmentToken
  mint_token token_id label intro audience scopes now ttl_ms id = do
    validate_scopes scopes
    refuse_if (ltb (30 * 86400000) ttl_ms) (protocol "enrollment TTL exceeds 30d")
    let x : EnrollmentToken = record {
      v = 1;
      record_type = ascii "enrollment";
      token_id = token_id;
      issuer = peer_id id;
      issued_at = format_time now;
      expires_at = format_time ((now + ttl_ms) % 2 ^ 64);
      label = label;
      intro = intro;
      audience = audience;
      bind_by = bind_by_for audience now ttl_ms;
      scopes = scopes;
      sig = 0;
    }
    payload ← unsigned (token_fields x) (ascii "sig")
    ok (record x { sig = sign id (ascii "enroll") payload })

  -- `EnrollmentToken::verify`
  unfoldable pub verify_token : EnrollmentToken → ℕ → Result (Unit {0})
  verify_token x now = do
    validate_scopes x.scopes
    payload ← unsigned (token_fields x) (ascii "sig")
    verify x.issuer (ascii "enroll") payload x.sig
    issued ← parse_time x.issued_at
    expires ← parse_time x.expires_at
    refuse_if (ltb (plus expires clock_skew_ms) now) (authorization "token expired")
    check_window x.audience x.bind_by issued

  -- `EnrollBind::sign`
  unfoldable pub sign_bind :
      EnrollmentToken → Option Bytes → ℕ → ℕ → List Bytes → Identity → Result EnrollBind
  sign_bind token name x25519_pk relay_discovery_key addresses guest = do
    refuse_if (is_some_and token.audience (λ p. not (p == peer_id guest)))
        (authorization "token audience mismatch")
    id ← decode_id token.token_id (protocol "bad token id") (protocol "bad token id")
    ok (record {
      message_type = ascii "enroll-bind";
      token = token;
      guest_peer_id = peer_id guest;
      name = name;
      x25519_pk = x25519_pk;
      relay_discovery_key = relay_discovery_key;
      addresses = addresses;
      sig = sign guest (ascii "enroll-bind") (id ++ to_be_bytes 32 (peer_id guest));
    })

  -- `EnrollBind::verify`
  unfoldable pub verify_bind : EnrollBind → ℕ → Result (Unit {0})
  verify_bind b now = do
    verify_token b.token now
    id ← decode_id b.token.token_id (protocol "bad token id") (protocol "bad token id")
    verify b.guest_peer_id (ascii "enroll-bind") (id ++ to_be_bytes 32 b.guest_peer_id) b.sig
