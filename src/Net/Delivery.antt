-- ===== src/Net/Delivery.antt =====
-- crates/abra-net/src/delivery.rs: the offer of a snapshot, and what its receiver checks before it
-- takes it.
pub mod Fits
pub mod Admitted
pub mod Plan
pub mod Transfer
use abra.Crates.{Crates}
use abra.Prelude.{
  ℕ, ◌+◌, ◌*◌, ◌%◌, ◌^◌, Bytes, Bool, true, false, not, ◌&&◌, ◌||◌, Option, none, some, List, [],
  ◌∷◌, any, length, ◌==◌, nat_eq, ltb, leb, Error, is_some, is_some_and, Result, ok, err, protocol,
  authorization, ◌>>=◌, ◌>>◌, refuse_if, ok_or, if◌then◌else◌,
}
use abra.Prelude.Map.{get}
use abra.Manifest.Schema.{Scope, Manifest, RawManifest}
use abra.Manifest.Raw.{Serde, parse_raw}
use abra.Capsule.Genesis.{Genesis}
use abra.Capsule.LeaseRecord
use abra.Capsule.LeaseRecord.{LeaseRecord}
use abra.Capsule.LabelOp.{LabelOp}
use abra.Net.Auth.Scopes.{Role, Direction, is_full, is_guest, is_personal, allows}
use abra.Net.Auth.Certificates.{BindCertificate, Revocation}
use abra.Net.Auth.Enrollment.{EnrollmentToken, verify_token}
use abra.Net.Auth.Trust.{LocalRole, TrustedPeer, TrustDisk, TrustStore}
use abra.Net.Auth.Guests.{is_revoked, install_bind_certificate}
use abra.Net.Auth.Revocations.{max_revocations_per_message, apply_revocations}
use abra.Net.Auth.Authorize.{in_scope}
use abra.Net.Time.{parse_time}

-- What the receiver takes from other code: `BASE64URL_NOPAD.decode(text).ok()`
pub record OfferCodecs : Type 0 where
  pub base64url_decode : Bytes → Option Bytes

pub record Offer : Type 0 where
  pub message_type : Bytes
  pub offer_id : Bytes
  pub snapshot_id : ℕ
  pub scope : Scope
  pub kind : Bytes
  pub title : Bytes
  pub capsule_id : Option ℕ
  pub fork : Bool
  pub bytes_hint : ℕ
  pub object_count : ℕ
  pub manifest_raw : Bytes
  pub genesis : Option Genesis
  pub genesis_grant : Option LeaseRecord
  pub lease_chain : List LeaseRecord
  pub main_label : Option LabelOp
  pub bind_certificate_issuer : Option ℕ
  pub bind_certificate : Option BindCertificate
  pub revocations : List Revocation

abbrev pub max_lease_chain_len : ℕ
max_lease_chain_len = 256

-- `==` on optional ids
abbrev pub same_id : Option ℕ → Option ℕ → Bool
same_id none none = true
same_id (some a) (some b) = a == b
same_id _ _ = false

-- The rest of a capsule's state, for the capsule of the manifest
unfoldable pub has_mismatch : Offer → ℕ → Bool
has_mismatch o id =
    is_some_and o.genesis (λ g. not (g.capsule_id == id))
    || (is_some_and o.genesis_grant (λ (l : LeaseRecord). not (l.capsule_id == id))
        || (any (λ (l : LeaseRecord). not (l.capsule_id == id)) o.lease_chain
            || is_some_and o.main_label (λ op. not (op.capsule_id == id))))

abbrev is_nil {ℓ} : {A : Type ℓ} → List A → Bool
is_nil [] = true
is_nil (x ∷ xs) = false

unfoldable pub has_state : Offer → Bool
has_state o =
    is_some o.genesis
    || (is_some o.genesis_grant || (not (is_nil o.lease_chain) || is_some o.main_label))

unfoldable pub check_bundle : Offer → Option ℕ → Result (Unit {0})
check_bundle o (some id) =
    refuse_if (has_mismatch o id) (protocol "offer capsule-state bundle mismatch")
check_bundle o none = refuse_if (has_state o) (protocol "partial offer carries capsule state")

-- `.map(parse_time).transpose()?.is_none_or(|end| now > end)`, as its opposite
unfoldable pub lasts_until : Option Bytes → ℕ → Result Bool
lasts_until none now = ok false
lasts_until (some text) now = do end ← parse_time text; ok (leb now end)

unfoldable pub check_end : Option Bytes → ℕ → Error → Result (Unit {0})
check_end text now e = do lasts ← lasts_until text now; refuse_if (not lasts) e

unfoldable pub check_origin_peer : TrustedPeer → ℕ → Result (Unit {0})
check_origin_peer origin now =
    if is_guest origin.role
    then check_end origin.expires_at now (authorization "manifest origin expired")
    else ok tt

abbrev pub is_full_device : LocalRole → Bool
is_full_device LocalRole.full = true
is_full_device (LocalRole.guest token) = false

module _ ⦃c : Crates⦄ where
  -- One pair of neighbours of the lease chain
  unfoldable pub check_link : LeaseRecord → LeaseRecord → Result (Unit {0})
  check_link p q = do
    refuse_if (not (q.epoch == (p.epoch + 1) % 2 ^ 64))
        (protocol "lease chain is not strictly contiguous")
    h ← LeaseRecord.hash p
    refuse_if (not (q.prev_hash == h)) (protocol "lease chain is not strictly contiguous")

  -- The loop over `windows(2)`
  unfoldable pub check_chain : List LeaseRecord → Result (Unit {0})
  check_chain [] = ok tt
  check_chain (p ∷ []) = ok tt
  check_chain (p ∷ (q ∷ rest)) = do check_link p q; check_chain (q ∷ rest)

  -- What does not depend on the trust between the devices
  unfoldable pub check_offer : Offer → RawManifest → Result (Unit {0})
  check_offer o raw = do
    refuse_if (not (raw.id == o.snapshot_id)) (protocol "offer snapshot id mismatch")
    refuse_if (ltb max_lease_chain_len (length o.lease_chain))
        (protocol "lease chain exceeds 256 records")
    check_chain o.lease_chain
    refuse_if (not (same_id o.capsule_id raw.manifest.capsule_id))
        (protocol "offer capsule differs from manifest")
    check_bundle o raw.manifest.capsule_id

  -- The certificate that may introduce an unknown origin: it is the sender's, who is full.
  unfoldable pub introduces :
      Option ℕ → Option BindCertificate → ℕ → ℕ → TrustedPeer → Option (ℕ × BindCertificate)
  introduces (some issuer) (some x) origin from sender =
      if x.guest_peer_id == origin && (from == issuer && is_full sender.role)
      then some (issuer, x)
      else none
  introduces _ _ origin from sender = none

  unfoldable pub hide_error : Result (Unit {0}) × TrustStore → Result (Unit {0}) × TrustStore
  hide_error (err e, s) = (err (authorization "untrusted manifest origin"), s)
  hide_error (ok u, s) = (ok tt, s)

  unfoldable pub introduce :
      Option (ℕ × BindCertificate) → ℕ → ℕ → TrustStore → Result (Unit {0}) × TrustStore
  introduce none now clock s = (err (authorization "untrusted manifest origin"), s)
  introduce (some (issuer, x)) now clock s =
      hide_error (install_bind_certificate issuer x now clock s)

  unfoldable pub ensure_origin :
      Offer → ℕ → ℕ → TrustedPeer → ℕ → ℕ → TrustStore → Result (Unit {0}) × TrustStore
  ensure_origin o origin from sender now clock s =
      if is_some (get s.disk.peers origin)
      then (ok tt, s)
      else introduce (introduces o.bind_certificate_issuer o.bind_certificate origin from sender)
          now clock s

  unfoldable pub check_guest_sender : TrustDisk → TrustedPeer → Manifest → ℕ → Result (Unit {0})
  check_guest_sender d sender m now = do
    refuse_if (not (is_full_device d.local_role) && is_personal d.mesh_profile)
        (authorization "guest-to-guest forbidden")
    token ← ok_or sender.token_id (authorization "guest lacks token")
    refuse_if (is_revoked d token) (authorization "guest sender out of scope")
    check_end sender.expires_at now (authorization "guest sender out of scope")
    refuse_if (not (in_scope sender m.capsule_id m.kind Direction.send))
        (authorization "guest sender out of scope")

  unfoldable pub check_sender : TrustDisk → TrustedPeer → Manifest → ℕ → Result (Unit {0})
  check_sender d sender m now =
      if is_guest sender.role then check_guest_sender d sender m now else ok tt

  -- What a device that is a guest itself may receive
  unfoldable pub check_local :
      TrustDisk → LocalRole → TrustedPeer → ℕ → Manifest → ℕ → Result (Unit {0})
  check_local d LocalRole.full sender from m now = ok tt
  check_local d (LocalRole.guest token) sender from m now = do
    peer ←
        ok_or (get d.peers from) (authorization "guest-to-guest or unknown counterparty forbidden")
    refuse_if (is_guest peer.role && is_personal d.mesh_profile)
        (authorization "guest-to-guest or unknown counterparty forbidden")
    verify_token token now
    refuse_if (not (allows token.scopes m.capsule_id m.kind Direction.receive))
        (authorization "local guest receive out of scope")
    refuse_if (is_guest peer.role && not (in_scope sender m.capsule_id m.kind Direction.send))
        (authorization "guest sender out of scope")

  -- The tests on the trust, once the origin is known
  unfoldable pub check_trust : RawManifest → TrustedPeer → ℕ → ℕ → TrustDisk → Result RawManifest
  check_trust raw sender from now d = do
    origin ←
        ok_or (get d.peers raw.manifest.origin.peer_id) (authorization "untrusted manifest origin")
    check_origin_peer origin now
    check_sender d sender raw.manifest now
    check_local d d.local_role sender from raw.manifest now
    ok raw

  unfoldable pub finish_offer :
      RawManifest
      → TrustedPeer
      → ℕ
      → ℕ
      → Result (Unit {0}) × TrustStore
      → Result RawManifest × TrustStore
  finish_offer raw sender from now (err e, s) = (err e, s)
  finish_offer raw sender from now (ok u, s) = (check_trust raw sender from now s.disk, s)

  unfoldable pub admit :
      Offer
      → ℕ
      → ℕ
      → ℕ
      → Result (RawManifest × TrustedPeer)
      → TrustStore
      → Result RawManifest × TrustStore
  admit o from now clock (err e) s = (err e, s)
  admit o from now clock (ok (raw, sender)) s =
      finish_offer raw sender from now
        (ensure_origin o raw.manifest.origin.peer_id from sender now clock s)

  module _ ⦃codecs : OfferCodecs⦄ ⦃serde : Serde⦄ where
    -- The manifest and the sender
    unfoldable pub read_offer : Offer → ℕ → TrustDisk → Result (RawManifest × TrustedPeer)
    read_offer o from d = do
      bytes ← ok_or (codecs.base64url_decode o.manifest_raw) (protocol "bad manifest base64")
      raw ← parse_raw bytes
      check_offer o raw
      sender ← ok_or (get d.peers from) (authorization "untrusted peer")
      ok (raw, sender)

    unfoldable pub after_revocations :
        Offer → ℕ → ℕ → ℕ → Result (Unit {0}) × TrustStore → Result RawManifest × TrustStore
    after_revocations o from now clock (err e, s) = (err e, s)
    after_revocations o from now clock (ok u, s) =
        admit o from now clock (read_offer o from s.disk) s

    unfoldable pub validate_incoming_offer :
        Offer → ℕ → ℕ → ℕ → TrustStore → Result RawManifest × TrustStore
    validate_incoming_offer o from now clock s =
        if ltb max_revocations_per_message (length o.revocations)
        then (err (protocol "revocation list exceeds 128 records"), s)
        else after_revocations o from now clock (apply_revocations o.revocations now clock s)
