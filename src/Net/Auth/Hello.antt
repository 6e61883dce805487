-- ===== src/Net/Auth/Hello.antt =====
-- The handshake of crates/abra-net/src/auth.rs: what each side checks and answers. The connection and
-- its peer are given; reading and writing of frames is in Net/Framing.
pub mod Trusted
use abra.Crates.{Crates}
use abra.Prelude.{
  ℕ, Bytes, ascii, Bool, true, false, not, ◌&&◌, ◌||◌, Option, none, some, List, [], ◌∷◌, any, all,
  length, ◌==◌, nat_eq, bytes_eq, ltb, is_ok, is_some, Result, ok, err, protocol, authentication,
  authorization, Error, ◌>>=◌, ◌>>◌, refuse_if, if◌then◌else◌,
}
use abra.Prelude.Map.{get}
use abra.Capsule.Signed.{spec}
use abra.Net.Auth.Certificates.{Revocation}
use abra.Net.Auth.Trust.{LocalRole, TrustDisk, TrustStore}
use abra.Net.Auth.Revocations.{
  max_revocations_per_message, current_revocations, is_revoked_guest, apply_revocations,
}

abbrev pub wire_version : ℕ
wire_version = 1

abbrev pub feature_revocation : Bytes
feature_revocation = ascii "revocation"

pub record Hello : Type 0 where
  pub message_type : Bytes
  pub wire : ℕ
  pub spec : Bytes
  pub peer_id : ℕ
  pub name : Bytes
  pub features : List Bytes
  pub nonce : Bytes
  pub revocations : List Revocation

pub record HelloOk : Type 0 where
  pub message_type : Bytes
  pub wire : ℕ
  pub peer_id : ℕ
  pub features : List Bytes
  pub nonce : Bytes
  pub session : Bytes
  pub revocations : List Revocation

pub record HelloReject : Type 0 where
  pub message_type : Bytes
  pub reason : Bytes
  pub message : Error

abbrev pub supported_features : List Bytes
supported_features =
    ascii "resume"
    ∷ (ascii "control"
        ∷ (feature_revocation
            ∷ (ascii "skip-native" ∷ (ascii "bind-cert" ∷ (ascii "control-result" ∷ [])))))

unfoldable pub has_feature : List Bytes → Bytes → Bool
has_feature features feature = any (λ candidate. candidate == feature) features

abbrev is_full_role : LocalRole → Bool
is_full_role LocalRole.full = true
is_full_role (LocalRole.guest token) = false

unfoldable pub negotiated_hello_revocations : TrustDisk → List Bytes → ℕ → List Revocation
negotiated_hello_revocations trust remote_features now =
    if is_full_role trust.local_role && has_feature remote_features feature_revocation
    then current_revocations trust now
    else []

-- `["resume", "control"].iter().all(…)`
unfoldable pub has_mandatory : List Bytes → Bool
has_mandatory features =
    has_feature features (ascii "resume") && has_feature features (ascii "control")

unfoldable pub session_of : Bool → Bytes
session_of true = ascii "trusted"
session_of false = ascii "bootstrap"

unfoldable pub check_hello : Hello → ℕ → Bool → Result HelloOk
check_hello hello authenticated trusted = do
  refuse_if (not (hello.peer_id == authenticated))
      (authentication "hello peer differs from transport")
  refuse_if (not (hello.wire == wire_version) || not (hello.spec == spec))
      (protocol "wire version mismatch")
  refuse_if (not (has_mandatory hello.features)) (protocol "mandatory feature missing")
  refuse_if (ltb max_revocations_per_message (length hello.revocations))
      (protocol "revocation list exceeds 128 records")
  ok (record {
    message_type = ascii "hello-ok";
    wire = wire_version;
    peer_id = authenticated;
    features = supported_features;
    nonce = hello.nonce;
    session = session_of trusted;
    revocations = [];
  })

unfoldable pub bootstrap_allowed : Bytes → Bool
bootstrap_allowed kind =
    any (λ k. k == kind)
      (ascii "pair-request"
        ∷ (ascii "pair-abort"
            ∷ (ascii "pair-accept"
                ∷ (ascii "pair-confirm"
                    ∷ (ascii "enroll-bind" ∷ (ascii "enroll-ok" ∷ (ascii "error" ∷ [])))))))

-- The answer that `exchange_hello` accepts
unfoldable pub check_hello_ok : HelloOk → Bytes → ℕ → Result HelloOk
check_hello_ok answer nonce remote = do
  refuse_if (not (answer.nonce == nonce) || not (answer.peer_id == remote))
      (authentication "invalid hello response")
  ok answer

-- The frame that the listener writes.
pub data Reply : Type 0 where
  accept : HelloOk → Reply
  reject : HelloReject → Reply

pub record Handshake : Type 0 where
  pub result : Result HelloOk
  pub reply : Option Reply
  pub trust : TrustStore

unfoldable pub rejection : Error → HelloReject
rejection e = record { message_type = ascii "hello-reject"; reason = ascii "wire"; message = e }

-- The last `match` of `accept_handshake`: what is written, and what is returned
unfoldable pub answer_hello : Hello → ℕ → ℕ → TrustStore → Result HelloOk → Handshake
answer_hello hello local now s (err e) = record {
  result = err e;
  reply = some (Reply.reject (rejection e));
  trust = s;
}
answer_hello hello local now s (ok checked) =
    let sent = record checked {
      peer_id = local;
      revocations = negotiated_hello_revocations s.disk hello.features now;
    } in
    record {
      result = ok (record sent { features = hello.features });
      reply = some (Reply.accept sent);
      trust = s;
    }

-- The first test of `accept_handshake`
unfoldable pub first_check : Hello → ℕ → ℕ → TrustDisk → Result HelloOk
first_check hello remote now d =
    if is_revoked_guest d remote now
    then err (authorization "token revoked")
    else check_hello hello remote (is_some (get d.peers remote))

-- The test after the revocations are applied
unfoldable pub check_again : ℕ → ℕ → TrustDisk → Result HelloOk → Result HelloOk
check_again remote now d checked =
    if not (is_some (get d.peers remote)) || is_revoked_guest d remote now
    then err (authorization "token revoked")
    else checked

unfoldable pub after_apply :
    Hello → ℕ → ℕ → ℕ → Result HelloOk → Result (Unit {0}) × TrustStore → Handshake
after_apply hello local remote now checked (err e, s) = record {
  result = err e;
  reply = none;
  trust = s;
}
after_apply hello local remote now checked (ok u, s) =
    answer_hello hello local now s (check_again remote now s.disk checked)

module _ ⦃c : Crates⦄ where
  unfoldable pub accept_handshake : Hello → ℕ → ℕ → ℕ → ℕ → TrustStore → Handshake
  accept_handshake hello local remote now clock s =
      let checked = first_check hello remote now s.disk in
      if is_ok checked && is_some (get s.disk.peers remote)
      then after_apply hello local remote now checked
          (apply_revocations hello.revocations now clock s)
      else answer_hello hello local now s checked

  unfoldable pub apply_answer :
      HelloOk → Result (Unit {0}) × TrustStore → Result HelloOk × TrustStore
  apply_answer answer (err e, s) = (err e, s)
  apply_answer answer (ok u, s) = (ok answer, s)

  unfoldable pub dialled : Result HelloOk → ℕ → ℕ → TrustStore → Result HelloOk × TrustStore
  dialled (err e) now clock s = (err e, s)
  dialled (ok answer) now clock s =
      if has_feature answer.features feature_revocation
      then apply_answer answer (apply_revocations answer.revocations now clock s)
      else (ok answer, s)

  -- `dial_handshake_with_trust`, for the answer that was read
  unfoldable pub dial_handshake_with_trust :
      HelloOk → Bytes → ℕ → ℕ → ℕ → TrustStore → Result HelloOk × TrustStore
  dial_handshake_with_trust answer nonce remote now clock s =
      dialled (check_hello_ok answer nonce remote) now clock s
