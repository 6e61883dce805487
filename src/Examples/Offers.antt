-- ===== src/Examples/Offers.antt =====
-- An offer of the guest 9 (crates/abra-net/src/delivery.rs): the test of the theorem on offers.
use abra.Examples.Toy.{toy}
use abra.Prelude.{
  ◌≡◌, refl, nat_eq, bytes_eq, list_beq, ascii, some, none, [], ok, err, false, Bytes, Result,
}
use abra.Prelude.Map.{get, contains_key}
use abra.Manifest.Schema.{Scope, RawManifest}
use abra.Canonical.Value.{object, remove_field, get_field}
use abra.Canonical.Write.{to_vec, write}
use abra.Identity.{verify, signature_preimage}
use abra.Manifest.Encode.{manifest_fields}
use abra.Manifest.Raw.{Serde, validate_canonical, parse_raw}
use abra.Net.Time.{parse_time}
use abra.Net.Auth.Scopes.{allows, list_allows, capsule_allowed, way_allowed}
use abra.Net.Auth.Trust.{read_disk, reload}
use abra.Net.Auth.Guests.{is_revoked}
use abra.Net.Auth.Revocations.{apply_revocations, apply_records, save_changed}
use abra.Net.Auth.Authorize.{in_scope}
use abra.Net.Delivery.{
  OfferCodecs, Offer, has_mismatch, check_bundle, check_chain, check_offer, lasts_until, check_end,
  check_origin_peer, ensure_origin, check_guest_sender, check_sender, check_local, check_trust,
  finish_offer, admit, read_offer, after_revocations, validate_incoming_offer,
}
use abra.Net.Delivery.Admitted.{Admitted, validate_incoming_offer-Admitted}
use abra.Examples.Manifests.{workspace, manifest_code}
use abra.Examples.Trust.{store, noon}

instance abbrev plain_serde : Serde
plain_serde = record {
  parse_value = λ bytes. ok (object (manifest_fields workspace));
  parse_manifest = λ bytes. ok workspace;
}

instance abbrev plain_codecs : OfferCodecs
plain_codecs = record { base64url_decode = λ text. some text }

abbrev bytes_of : Result Bytes → Bytes
bytes_of (ok bytes) = bytes
bytes_of (err e) = []

abbrev encoded : Bytes
encoded = bytes_of (to_vec (object (manifest_fields workspace)))

abbrev raw_of : Result RawManifest → RawManifest
raw_of (ok raw) = raw
raw_of (err e) = record { bytes = []; manifest = workspace; id = 0 }

abbrev raw : RawManifest
raw = raw_of (parse_raw encoded)

abbrev pub offer : Offer
offer = record {
  message_type = ascii "offer";
  offer_id = ascii "o";
  snapshot_id = raw.id;
  scope = Scope.full;
  kind = workspace.kind;
  title = workspace.title;
  capsule_id = some 11;
  fork = false;
  bytes_hint = 0;
  object_count = 0;
  manifest_raw = encoded;
  genesis = none;
  genesis_grant = none;
  lease_chain = [];
  main_label = none;
  bind_certificate_issuer = none;
  bind_certificate = none;
  revocations = [];
}

admits : (validate_incoming_offer offer 9 noon noon store).0 ≡ ok raw
unfolding manifest_code parse_raw validate_canonical to_vec write remove_field get_field verify
    signature_preimage validate_incoming_offer after_revocations read_offer admit finish_offer
    check_trust check_local check_sender check_guest_sender ensure_origin check_origin_peer
    check_end lasts_until check_offer check_chain check_bundle has_mismatch in_scope allows
    list_allows capsule_allowed way_allowed is_revoked apply_revocations apply_records save_changed
    get contains_key parse_time list_beq read_disk reload
admits = refl

validate_incoming_offer-Admitted_example :
    Admitted offer raw 9 noon
      (apply_revocations offer.revocations noon noon store).1.disk
      (validate_incoming_offer offer 9 noon noon store).1.disk
validate_incoming_offer-Admitted_example =
    validate_incoming_offer-Admitted offer raw 9 noon noon store admits
