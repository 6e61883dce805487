-- ===== src/Examples/Hellos.antt =====
-- A greeting of the full peer 5 (crates/abra-net/src/auth.rs): the test of the theorem on the
-- handshake.
use abra.Examples.Toy.{toy}
use abra.Prelude.{◌≡◌, refl, nat_eq, bytes_eq, list_beq, ascii, [], ◌∷◌, ok, some, true}
use abra.Prelude.Map.{contains_key}
use abra.Capsule.Signed.{spec}
use abra.Identity.{verify, signature_preimage}
use abra.Net.Auth.Certificates.{BindCertificate, Revocation, bad_id, revocation_fields, verify_at}
use abra.Net.Auth.Signing.{unsigned}
use abra.Net.Auth.Trust.{TrustStore}
use abra.Net.Auth.Revocations.{
  is_revoked_guest, guest_token, apply_revocations, apply_records, save_changed, is_applicable,
  apply_record, matching_certificate, existing_revocation, relevant_until, has_token,
  revocation_key,
}
use abra.Net.Auth.Hello.{
  Hello, HelloOk, has_feature, has_mandatory, session_of, check_hello, first_check, check_again,
  after_apply, answer_hello, negotiated_hello_revocations, accept_handshake,
}
use abra.Net.Auth.Hello.Trusted.{IsGreeting, MayEnter, Heard, accept_handshake-MayEnter}
use abra.Examples.Trust.{home, token, everything, noon, save_code}

abbrev certificate : BindCertificate
certificate = record {
  record_type = ascii "bind-cert";
  token_id = token;
  guest_peer_id = 9;
  bound_at = ascii "2026-01-01T12:00:00.000Z";
  name = ascii "guest";
  x25519_pk = 1;
  scopes = everything;
  expires_at = ascii "2026-01-02T00:00:00.000Z";
  sig = 1005;
}

-- The guest 9 has a certificate by the peer 5, who revokes its token.
abbrev certified : TrustStore
certified =
    let disk = record home {
      bind_certificates = (9, record { issuer = 5; certificate = certificate }) ∷ [];
    } in
    record { disk = disk; file = some disk }

abbrev revocation : Revocation
revocation = record {
  record_type = ascii "revocation";
  issuer = 5;
  token_id = token;
  guest_peer_id = 9;
  revoked_at = ascii "2026-01-01T12:00:00.000Z";
  sig = 1005;
}

abbrev hello : Hello
hello = record {
  message_type = ascii "hello";
  wire = 1;
  spec = spec;
  peer_id = 5;
  name = ascii "desk";
  features = ascii "resume" ∷ (ascii "control" ∷ []);
  nonce = ascii "n";
  revocations = revocation ∷ [];
}

abbrev welcome : HelloOk
welcome = record {
  message_type = ascii "hello-ok";
  wire = 1;
  peer_id = 1;
  features = hello.features;
  nonce = ascii "n";
  session = ascii "trusted";
  revocations = [];
}

-- All that a handshake runs.
unfoldable hello_code : Unit {0}
unfolding save_code accept_handshake first_check check_again after_apply answer_hello check_hello
    has_mandatory has_feature session_of negotiated_hello_revocations is_revoked_guest guest_token
    apply_revocations apply_records save_changed is_applicable apply_record matching_certificate
    existing_revocation relevant_until has_token revocation_key verify_at bad_id revocation_fields
    unsigned verify signature_preimage list_beq
hello_code = tt

greets : (accept_handshake hello 1 5 noon noon certified).result ≡ ok welcome
unfolding hello_code
greets = refl

accept_handshake-MayEnter_example :
    (IsGreeting hello 5
      × MayEnter 5 noon (accept_handshake hello 1 5 noon noon certified).trust.disk welcome)
    × Heard hello 5 noon noon certified (accept_handshake hello 1 5 noon noon certified).trust
accept_handshake-MayEnter_example =
    accept_handshake-MayEnter hello 1 5 noon noon certified welcome greets

revokes_guest :
    contains_key (accept_handshake hello 1 5 noon noon certified).trust.disk.revoked token ≡ true
unfolding hello_code
revokes_guest = refl
