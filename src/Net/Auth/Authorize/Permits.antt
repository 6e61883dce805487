-- ===== src/Net/Auth/Authorize/Permits.antt =====
-- What authorize_offer and authorize_lease of crates/abra-net/src/auth.rs permit.
use abra.Crates.{Crates}
use abra.Prelude.{
  ℕ, ◌≤◌, ◌≡◌, ◌↔◌, ◌⊎◌, inl, inr, refl, Bytes, Bool, true, false, not, ◌&&◌, Option, none, some,
  ltb, nat_eq, bytes_eq, ok, >>=-eq-ok, >>-parts, ◌>>◌, refuse_if, ok_or, arith, Option-cases,
  Bool-cases, if◌then◌else◌,
}
use abra.Net.Auth.Scopes.Covers.{Covers, allows-Covers, Covers-allows}
use abra.Prelude.Map.{get, contains_key}
use abra.Net.Time.{parse_time}
use abra.Net.Auth.Scopes.{Role, MeshProfile, is_guest, is_personal, Scopes, Direction, opposite}
use abra.Net.Auth.Trust.{TrustedPeer, TrustDisk}
use abra.Net.Auth.Guests.{is_revoked}
use abra.Net.Auth.Authorize.{
  check_expiry, check_token, in_scope, authorize_guest, authorize_offer, check_lease_scope,
  authorize_lease,
}

-- A guest whose token stands: it is not revoked, and its end can be read and has not passed.
pub record HoldsToken (d : TrustDisk) (peer : TrustedPeer) (now : ℕ) : Type 0 where
  pub token : Bytes
  pub held : peer.token_id ≡ some token
  pub unrevoked : contains_key d.revoked token ≡ false
  pub expiry : Bytes
  pub dated : peer.expires_at ≡ some expiry
  pub until : ℕ
  pub parsed : parse_time expiry ≡ ok until
  pub lasts : now ≤ until

check_expiry-ok :
    (o : Option Bytes) (now : ℕ)
    → check_expiry o now ≡ ok tt
    → (expiry : Bytes) × (o ≡ some expiry)
      × (until : ℕ) × (parse_time expiry ≡ ok until)
      × (now ≤ until)
unfolding check_expiry
check_expiry-ok none now h = cc
check_expiry-ok (some text) now h =
    let (until, parsed, rest) =
      >>=-eq-ok (parse_time text) (λ (e : ℕ). refuse_if (ltb e now) _) h in
    (text, refl, until, parsed, ground (arith, rest))

check_expiry_lasts :
    (expiry : Bytes) (now until : ℕ)
    → parse_time expiry ≡ ok until
    → now ≤ until
    → check_expiry (some expiry) now ≡ ok tt
unfolding check_expiry
check_expiry_lasts expiry now until parsed later = rw parsed (ground arith)

check_token-HoldsToken :
    (d : TrustDisk) (peer : TrustedPeer) (now : ℕ)
    → check_token d peer now ≡ ok tt
    → HoldsToken d peer now
unfolding check_token is_revoked
check_token-HoldsToken d peer now h =
    let (id, held, rest) = >>=-eq-ok (ok_or peer.token_id _) _ h in
    let (unrevoked, dated) = >>-parts (refuse_if (contains_key d.revoked id) _) _ rest in
    let (expiry, given, until, parsed, later) = check_expiry-ok peer.expires_at now dated in
    record {
      token = id;
      held = ground (arith, held);
      unrevoked = ground (arith, unrevoked);
      expiry = expiry;
      dated = given;
      until = until;
      parsed = parsed;
      lasts = later;
    }

HoldsToken-check_token :
    (d : TrustDisk) (peer : TrustedPeer) (now : ℕ)
    → HoldsToken d peer now
    → check_token d peer now ≡ ok tt
unfolding check_token is_revoked
HoldsToken-check_token d peer now h =
    rw (h.held, h.dated)
      (ground (arith, h.unrevoked, check_expiry_lasts h.expiry now h.until h.parsed h.lasts))

module _ ⦃c : Crates⦄ where
  -- A guest's scopes cover the transfer.
  pub record InScope (peer : TrustedPeer) (capsule : Option ℕ) (kind : Bytes)
      (direction : Direction) : Type 0 where
    pub scopes : Scopes
    pub given : peer.scopes ≡ some scopes
    pub covered : Covers scopes capsule kind direction

  pub in_scope-InScope :
      (peer : TrustedPeer) (capsule : Option ℕ) (kind : Bytes) (direction : Direction)
      → in_scope peer capsule kind direction ≡ true
      → InScope peer capsule kind direction
  unfolding in_scope
  in_scope-InScope peer capsule kind direction h = elim (Option-cases peer.scopes) [
    | inl e ↦ absurd (ground arith)
    | inr (s, e) ↦ record {
      scopes = s;
      given = e;
      covered = allows-Covers s capsule kind direction (ground arith);
    }
  ]

  InScope-in_scope :
      (peer : TrustedPeer) (capsule : Option ℕ) (kind : Bytes) (direction : Direction)
      → InScope peer capsule kind direction
      → in_scope peer capsule kind direction ≡ true
  unfolding in_scope
  InScope-in_scope peer capsule kind direction h =
      ground (arith, h.given, Covers-allows h.scopes capsule kind direction h.covered)

  -- What a transfer with the other peer needs: a full one needs nothing more, a guest is met in a
  -- fleet only, and its own scopes cover the opposite way.
  abbrev pub MayMeet : TrustDisk → TrustedPeer → Option ℕ → Bytes → Direction → Type 0
  MayMeet d peer capsule kind direction =
      (peer.role ≡ Role.full)
      ⊎ ((d.mesh_profile ≡ MeshProfile.fleet) × InScope peer capsule kind (opposite direction))

  abbrev pub GuestMay : TrustDisk → TrustedPeer → ℕ → Option ℕ → Bytes → Direction → ℕ → Type 0
  GuestMay d actor other capsule kind direction now =
      (peer : TrustedPeer) × (get d.peers other ≡ some peer)
      × HoldsToken d actor now
      × InScope actor capsule kind direction
      × MayMeet d peer capsule kind direction

  -- The independent description of `authorize_offer`.
  abbrev pub Permits : TrustDisk → ℕ → ℕ → Option ℕ → Bytes → Direction → ℕ → Type 0
  Permits d actor_id other capsule kind direction now =
      (actor : TrustedPeer) × (get d.peers actor_id ≡ some actor)
      × ((actor.role ≡ Role.full) ⊎ GuestMay d actor other capsule kind direction now)

  authorize_guest-GuestMay :
      (d : TrustDisk) (actor : TrustedPeer) (other : ℕ) (capsule : Option ℕ) (kind : Bytes)
      (direction : Direction) (now : ℕ)
      → authorize_guest d actor other capsule kind direction now ≡ ok tt
      → GuestMay d actor other capsule kind direction now
  unfolding authorize_guest
  authorize_guest-GuestMay d actor other capsule kind direction now h =
      let (peer, found, h1) = >>=-eq-ok (ok_or (get d.peers other) _) _ h in
      let (apart, h2) =
        >>-parts (refuse_if (is_guest peer.role && is_personal d.mesh_profile) _) _ h1 in
      let (token, h3) = >>-parts (check_token d actor now) _ h2 in
      let (scoped, met) =
        >>-parts (refuse_if (not (in_scope actor capsule kind direction)) _) _ h3 in
      (
        peer,
        ground (arith, found),
        check_token-HoldsToken d actor now token,
        in_scope-InScope actor capsule kind direction (ground (arith, scoped)),
        elim (Bool-cases (is_guest peer.role)) [
          | inl e ↦ inr (
            ground (arith, apart),
            in_scope-InScope peer capsule kind (opposite direction) (ground (arith, met)),
          )
          | inr e ↦ inl (ground arith)
        ],
      )

  GuestMay-authorize_guest :
      (d : TrustDisk) (actor : TrustedPeer) (other : ℕ) (capsule : Option ℕ) (kind : Bytes)
      (direction : Direction) (now : ℕ)
      → GuestMay d actor other capsule kind direction now
      → authorize_guest d actor other capsule kind direction now ≡ ok tt
  unfolding authorize_guest
  GuestMay-authorize_guest d actor other capsule kind direction now
        (peer, found, token, scoped, met) =
      let checked = HoldsToken-check_token d actor now token in
      let inside = InScope-in_scope actor capsule kind direction scoped in
      elim met [
        | inl full ↦ ground (arith, found)
        | inr (fleet, covered) ↦
            ground (arith, found, InScope-in_scope peer capsule kind (opposite direction) covered)
      ]

  -- authorize_offer accepts exactly the offers that are permitted: the actor is trusted, and it is
  -- full, or a guest whose token is unrevoked and unexpired and whose scopes cover the transfer, with
  -- a known counterparty, which is full, or a guest of a fleet whose scopes cover the opposite way.
  pub authorize_offer-Permits :
      (d : TrustDisk) (actor_id other : ℕ) (capsule : Option ℕ) (kind : Bytes)
      (direction : Direction) (now : ℕ)
      → (authorize_offer d actor_id other capsule kind direction now ≡ ok tt)
        ↔ Permits d actor_id other capsule kind direction now
  unfolding authorize_offer
  authorize_offer-Permits d actor_id other capsule kind direction now = (
    λ h.
        let (actor, found, rest) = >>=-eq-ok (ok_or (get d.peers actor_id) _) _ h in
        (
          actor,
          ground (arith, found),
          elim (Bool-cases (is_guest actor.role)) [
            | inl e ↦ inr (
                authorize_guest-GuestMay d actor other capsule kind direction now
                  (ground (arith, rest)))
            | inr e ↦ inl (ground arith)
          ],
        ),
    λ (actor, found, may). elim may [
      | inl full ↦ ground (arith, found)
      | inr guest ↦
          ground
            (arith, found, GuestMay-authorize_guest d actor other capsule kind direction now guest)
    ],
  )

-- The independent description of `authorize_lease`.
abbrev pub MayLease : TrustDisk → ℕ → Bool → ℕ → Type 0
MayLease d actor takeover now =
    (peer : TrustedPeer) × (get d.peers actor ≡ some peer)
    × ((peer.role ≡ Role.full)
        ⊎ (HoldsToken d peer now
            × ((s : Scopes) × (peer.scopes ≡ some s)
                × ((if takeover then s.lease_takeover else s.lease_acquire) ≡ true))))

check_lease_scope-ok :
    (peer : TrustedPeer) (takeover : Bool)
    → check_lease_scope peer takeover ≡ ok tt
    → (s : Scopes) × (peer.scopes ≡ some s)
      × ((if takeover then s.lease_takeover else s.lease_acquire) ≡ true)
unfolding check_lease_scope
check_lease_scope-ok peer takeover h =
    let (s, given, rest) = >>=-eq-ok (ok_or peer.scopes _) _ h in
    (s, ground (arith, given), ground (arith, rest))

MayLease-check_lease_scope :
    (peer : TrustedPeer) (takeover : Bool) (s : Scopes)
    → peer.scopes ≡ some s
    → (if takeover then s.lease_takeover else s.lease_acquire) ≡ true
    → check_lease_scope peer takeover ≡ ok tt
unfolding check_lease_scope
MayLease-check_lease_scope peer takeover s given right = rw given (ground arith)

-- authorize_lease accepts exactly the calls that a full peer makes, or a guest whose token is
-- unrevoked and unexpired and whose scopes have the right to take over or to acquire.
pub authorize_lease-MayLease :
    (d : TrustDisk) (actor : ℕ) (takeover : Bool) (now : ℕ)
    → (authorize_lease d actor takeover now ≡ ok tt) ↔ MayLease d actor takeover now
unfolding authorize_lease
authorize_lease-MayLease d actor takeover now = (
  λ h.
      let (peer, found, rest) = >>=-eq-ok (ok_or (get d.peers actor) _) _ h in
      (
        peer,
        ground (arith, found),
        elim (Bool-cases (is_guest peer.role)) [
          | inl e ↦
              let both : (check_token d peer now >> check_lease_scope peer takeover) ≡ ok tt =
                ground (arith, rest) in
              let (token, scoped) = >>-parts (check_token d peer now) _ both in
              inr
                (check_token-HoldsToken d peer now token, check_lease_scope-ok peer takeover scoped)
          | inr e ↦ inl (ground arith)
        ],
      ),
  λ (peer, found, may). elim may [
    | inl full ↦ ground (arith, found)
    | inr (token, (s, given, right)) ↦
        let scoped = MayLease-check_lease_scope peer takeover s given right in
        ground (arith, found, HoldsToken-check_token d peer now token)
  ],
)
