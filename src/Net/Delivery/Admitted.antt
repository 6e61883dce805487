-- ===== src/Net/Delivery/Admitted.antt =====
-- What an offer that is admitted has (crates/abra-net/src/delivery.rs).
use abra.Crates.{Crates}
use abra.Prelude.{
  ℕ, ◌≤◌, ◌≡◌, ◌⊎◌, inl, inr, refl, Bytes, Bool, true, false, not, ◌&&◌, Option, none, some, length,
  nat_eq, bytes_eq, ltb, Error, protocol, authorization, Result, ok, err, >>=-eq-ok, >>-parts,
  refuse_if, ok_or, arith, Bool-cases, if◌then◌else◌,
}
use abra.Prelude.Map.{get, contains_key}
use abra.Net.Time.{parse_time}
use abra.Manifest.Schema.{Manifest, RawManifest}
use abra.Net.Auth.Scopes.{Role, Direction, is_guest, is_personal, allows}
use abra.Net.Auth.Scopes.Covers.{Covers, allows-Covers}
use abra.Net.Auth.Enrollment.{verify_token}
use abra.Net.Auth.Trust.{LocalRole, TrustedPeer, TrustDisk, TrustStore}
use abra.Net.Auth.Guests.{is_revoked}
use abra.Net.Auth.Revocations.{max_revocations_per_message, apply_revocations}
use mathlib.Core.Path.{subst, sym}
use abra.Net.Auth.Authorize.Permits.{HoldsToken, InScope, in_scope-InScope}
use abra.Net.Delivery.{
  OfferCodecs, Offer, is_full_device, check_offer, lasts_until, check_end, check_origin_peer,
  check_guest_sender, check_sender, check_local, check_trust, finish_offer, ensure_origin, admit,
  read_offer, after_revocations, validate_incoming_offer,
}
use abra.Manifest.Raw.{Serde, parse_raw, IsAuthentic, parse_raw-IsAuthentic}
use abra.Net.Delivery.Fits.{Fits, check_offer-Fits}

module _ ⦃c : Crates⦄ where
  check_end-parts :
      (o : Option Bytes) (now : ℕ) (e : Error)
      → check_end o now e ≡ ok tt
      → (text : Bytes) × (o ≡ some text)
        × (until : ℕ) × (parse_time text ≡ ok until)
        × (now ≤ until)
  unfolding check_end lasts_until
  check_end-parts none now e h = cc
  check_end-parts (some text) now e h =
      let (lasts, read, rest) = >>=-eq-ok (lasts_until (some text) now) _ h in
      let (until, parsed, same) = >>=-eq-ok (parse_time text) _ read in
      (text, refl, until, parsed, ground (arith, rest, same))

  -- The sender is full, or a guest whose token stands and whose scopes let it send this, to a full
  -- device or within a fleet.
  abbrev pub MaySend : TrustDisk → TrustedPeer → Manifest → ℕ → Type 0
  MaySend d sender m now =
      (sender.role ≡ Role.full)
      ⊎ (HoldsToken d sender now
          × InScope sender m.capsule_id m.kind Direction.send
          × ((not (is_full_device d.local_role) && is_personal d.mesh_profile) ≡ false))

  check_sender-MaySend :
      (d : TrustDisk) (sender : TrustedPeer) (m : Manifest) (now : ℕ)
      → check_sender d sender m now ≡ ok tt
      → MaySend d sender m now
  unfolding check_sender check_guest_sender is_revoked
  check_sender-MaySend d sender m now h = elim (Bool-cases (is_guest sender.role)) [
    | inr e ↦ inl (ground arith)
    | inl e ↦
        let guest : check_guest_sender d sender m now ≡ ok tt = ground (arith, h) in
        let (h0, h1) =
          >>-parts (refuse_if (not (is_full_device d.local_role) && is_personal d.mesh_profile) _) _
            guest in
        let (token, held, h2) = >>=-eq-ok (ok_or sender.token_id _) _ h1 in
        let (h3, h4) = >>-parts (refuse_if (contains_key d.revoked token) _) _ h2 in
        let (h5, h6) = >>-parts (check_end sender.expires_at now _) _ h4 in
        let (expiry, dated, until, parsed, later) = check_end-parts sender.expires_at now _ h5 in
        inr (
          record {
            token = token;
            held = ground (arith, held);
            unrevoked = ground (arith, h3);
            expiry = expiry;
            dated = dated;
            until = until;
            parsed = parsed;
            lasts = later;
          },
          in_scope-InScope sender m.capsule_id m.kind Direction.send (ground (arith, h6)),
          ground (arith, h0),
        )
  ]

  -- A device that is a guest itself takes only what its own token lets it receive.
  abbrev pub MayReceive : LocalRole → Manifest → ℕ → Type 0
  MayReceive LocalRole.full m now = Unit
  MayReceive (LocalRole.guest token) m now =
      (verify_token token now ≡ ok tt) × Covers token.scopes m.capsule_id m.kind Direction.receive

  check_local-MayReceive :
      (d : TrustDisk) (role : LocalRole) (sender : TrustedPeer) (from : ℕ) (m : Manifest) (now : ℕ)
      → check_local d role sender from m now ≡ ok tt
      → MayReceive role m now
  unfolding check_local
  check_local-MayReceive d LocalRole.full sender from m now h = tt
  check_local-MayReceive d (LocalRole.guest token) sender from m now h =
      let (peer, known, h0) = >>=-eq-ok (ok_or (get d.peers from) _) _ h in
      let (h1, h2) =
        >>-parts (refuse_if (is_guest peer.role && is_personal d.mesh_profile) _) _ h0 in
      let (verified, h3) = >>-parts (verify_token token now) _ h2 in
      let (h4, h5) =
        >>-parts (refuse_if (not (allows token.scopes m.capsule_id m.kind Direction.receive)) _) _
          h3 in
      (
        verified,
        allows-Covers token.scopes m.capsule_id m.kind Direction.receive (ground (arith, h4)),
      )

  abbrev pub IsUnexpired : TrustedPeer → ℕ → Type 0
  IsUnexpired origin now =
      (origin.role ≡ Role.full)
      ⊎ ((text : Bytes) × (origin.expires_at ≡ some text)
          × (until : ℕ) × (parse_time text ≡ ok until)
          × (now ≤ until))

  check_origin_peer-IsUnexpired :
      (origin : TrustedPeer) (now : ℕ)
      → check_origin_peer origin now ≡ ok tt
      → IsUnexpired origin now
  unfolding check_origin_peer
  check_origin_peer-IsUnexpired origin now h = elim (Bool-cases (is_guest origin.role)) [
    | inl e ↦ inr (
        check_end-parts origin.expires_at now (authorization "manifest origin expired")
          (ground (arith, h)))
    | inr e ↦ inl (ground arith)
  ]

  module _ ⦃codecs : OfferCodecs⦄ ⦃serde : Serde⦄ where
    -- The offer's manifest is authentic, and the offer fits it.
    pub record Arrived (o : Offer) (raw : RawManifest) : Type 0 where
      pub bytes : Bytes
      pub decoded : codecs.base64url_decode o.manifest_raw ≡ some bytes
      pub authentic : IsAuthentic bytes raw
      pub fits : Fits o raw

    -- What holds of an admitted offer: `known` is the trust when the sender is looked up, and `d` the one
    -- that the origin's certificate may have extended.
    pub record Admitted (o : Offer) (raw : RawManifest) (from now : ℕ) (known d : TrustDisk)
        : Type 0 where
      pub arrived : Arrived o raw
      pub sender : TrustedPeer
      pub met : get known.peers from ≡ some sender
      pub origin : TrustedPeer
      pub trusted : get d.peers raw.manifest.origin.peer_id ≡ some origin
      pub unexpired : IsUnexpired origin now
      pub may_send : MaySend d sender raw.manifest now
      pub may_receive : MayReceive d.local_role raw.manifest now

    check_trust-Admitted :
        (o : Offer) (raw raw' : RawManifest) (sender : TrustedPeer) (from now : ℕ)
        (known d : TrustDisk)
        → Arrived o raw
        → get known.peers from ≡ some sender
        → check_trust raw sender from now d ≡ ok raw'
        → (raw ≡ raw') × Admitted o raw from now known d
    unfolding check_trust
    check_trust-Admitted o raw raw' sender from now known d arrived met h =
        let (origin, trusted, h0) =
          >>=-eq-ok (ok_or (get d.peers raw.manifest.origin.peer_id) _) _ h in
        let (h1, h2) = >>-parts (check_origin_peer origin now) _ h0 in
        let (h3, h4) = >>-parts (check_sender d sender raw.manifest now) _ h2 in
        let (h5, h6) = >>-parts (check_local d d.local_role sender from raw.manifest now) _ h4 in
        (
          ground (arith, h6),
          record {
            arrived = arrived;
            sender = sender;
            met = met;
            origin = origin;
            trusted = ground (arith, trusted);
            unexpired = check_origin_peer-IsUnexpired origin now h1;
            may_send = check_sender-MaySend d sender raw.manifest now h3;
            may_receive = check_local-MayReceive d d.local_role sender from raw.manifest now h5;
          },
        )

    finish_offer-Admitted :
        (o : Offer) (raw raw' : RawManifest) (sender : TrustedPeer) (from now : ℕ)
        (known : TrustDisk) (found : Result (Unit {0}) × TrustStore)
        → Arrived o raw
        → get known.peers from ≡ some sender
        → (finish_offer raw sender from now found).0 ≡ ok raw'
        → Admitted o raw' from now known (finish_offer raw sender from now found).1.disk
    unfolding finish_offer
    finish_offer-Admitted o raw raw' sender from now known (err e, s) arrived met h = cc
    finish_offer-Admitted o raw raw' sender from now known (ok u, s) arrived met h =
        let (same, admitted) =
          check_trust-Admitted o raw raw' sender from now known s.disk arrived met h in
        subst (λ x. Admitted o x from now known s.disk) same admitted

    read_offer-parts :
        (o : Offer) (from : ℕ) (d : TrustDisk) (raw : RawManifest) (sender : TrustedPeer)
        → read_offer o from d ≡ ok (raw, sender)
        → Arrived o raw × (get d.peers from ≡ some sender)
    unfolding read_offer
    read_offer-parts o from d raw sender h =
        let (bytes, decoded, h0) =
          >>=-eq-ok (ok_or (codecs.base64url_decode o.manifest_raw) _) _ h in
        let (raw', parsed, h1) = >>=-eq-ok (parse_raw bytes) _ h0 in
        let (h2, h3) = >>-parts (check_offer o raw') _ h1 in
        let (sender', met, h4) = >>=-eq-ok (ok_or (get d.peers from) _) _ h3 in
        let same : raw' ≡ raw = ground (arith, h4) in
        let same_sender : sender' ≡ sender = ground (arith, h4) in
        (
          subst (λ x. Arrived o x) same
              (record {
                bytes = bytes;
                decoded = ground (arith, decoded);
                authentic = parse_raw-IsAuthentic bytes raw' parsed;
                fits = check_offer-Fits o raw' h2;
              }),
          ground (arith, met, same_sender),
        )

    admit-Admitted :
        (o : Offer) (raw : RawManifest) (from now clock : ℕ) (s : TrustStore)
        (read : Result (RawManifest × TrustedPeer))
        → read_offer o from s.disk ≡ read
        → (admit o from now clock read s).0 ≡ ok raw
        → Admitted o raw from now s.disk (admit o from now clock read s).1.disk
    unfolding admit
    admit-Admitted o raw from now clock s (err e) was h = cc
    admit-Admitted o raw from now clock s (ok (raw', sender)) was h =
        let (arrived, met) = read_offer-parts o from s.disk raw' sender was in
        finish_offer-Admitted o raw' raw sender from now s.disk
          (ensure_origin o raw'.manifest.origin.peer_id from sender now clock s) arrived met h

    after_revocations-Admitted :
        (o : Offer) (raw : RawManifest) (from now clock : ℕ)
        (applied : Result (Unit {0}) × TrustStore)
        → (after_revocations o from now clock applied).0 ≡ ok raw
        → Admitted o raw from now applied.1.disk (after_revocations o from now clock applied).1.disk
    unfolding after_revocations
    after_revocations-Admitted o raw from now clock (err e, s) h = cc
    after_revocations-Admitted o raw from now clock (ok u, s) h =
        admit-Admitted o raw from now clock s (read_offer o from s.disk) refl h

    within_bound :
        (over : Bool) (e : Error) (s : TrustStore) (raw : RawManifest)
        (r : Result RawManifest × TrustStore)
        → (if over then (err e, s) else r).0 ≡ ok raw
        → (if over then (err e, s) else r) ≡ r
    within_bound true e s raw r h = cc
    within_bound false e s raw r h = refl

    -- An offer that validate_incoming_offer admits has a manifest in its canonical encoding, valid and
    -- signed by its origin, whose id is the digest of what is signed. The offer names that id and the
    -- manifest's capsule, its lease chain is contiguous and at most 256 records long, and its capsule
    -- state is of that capsule. In the trust that the call leaves, the origin is a known peer who has not
    -- expired. The sender was known once the offer's revocations were applied, and is full, or a guest
    -- whose token stands and whose scopes let it send this capsule or kind, unless the mesh is personal
    -- and this device a guest too; and if this device is a guest, its own token is valid and lets it
    -- receive.
    pub validate_incoming_offer-Admitted :
        (o : Offer) (raw : RawManifest) (from now clock : ℕ) (s : TrustStore)
        → (validate_incoming_offer o from now clock s).0 ≡ ok raw
        → Admitted o raw from now
            (apply_revocations o.revocations now clock s).1.disk
            (validate_incoming_offer o from now clock s).1.disk
    unfolding validate_incoming_offer
    validate_incoming_offer-Admitted o raw from now clock s h =
        let applied = apply_revocations o.revocations now clock s in
        let taken =
          within_bound (ltb max_revocations_per_message (length o.revocations))
            (protocol "revocation list exceeds 128 records") s raw
            (after_revocations o from now clock applied) h in
        subst (λ r. Admitted o raw from now applied.1.disk r.1.disk) (sym taken)
          (after_revocations-Admitted o raw from now clock applied
            (subst (λ r. r.0 ≡ ok raw) taken h))
