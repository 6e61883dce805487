-- ===== src/Net/Auth/Authorize.antt =====
-- `authorize_offer` and `authorize_lease` of crates/abra-net/src/auth.rs.
pub mod Permits
use abra.Crates.{Crates}
use abra.Prelude.{
  ℕ, Bytes, Bool, true, false, not, ◌&&◌, ◌||◌, Option, none, some, nat_eq, bytes_eq, is_some_and,
  ltb, Result, ok, authorization, ◌>>=◌, ◌>>◌, refuse_if, ok_or, if◌then◌else◌,
}
use abra.Prelude.Map.{get}
use abra.Net.Time.{parse_time}
use abra.Net.Auth.Scopes.{
  Role, MeshProfile, is_guest, is_personal, Scopes, Direction, allows, opposite,
}
use abra.Net.Auth.Trust.{TrustedPeer, TrustDisk}
use abra.Net.Auth.Guests.{is_revoked}

-- `.map(parse_time).transpose()?.is_none_or(|e| now > e)`, and what it refuses
unfoldable pub check_expiry : Option Bytes → ℕ → Result (Unit {0})
check_expiry none now = refuse_if true (authorization "token expired")
check_expiry (some text) now = do
  e ← parse_time text
  refuse_if (ltb e now) (authorization "token expired")

-- The token of a guest, which is neither revoked nor expired.
unfoldable pub check_token : TrustDisk → TrustedPeer → ℕ → Result (Unit {0})
check_token d peer now = do
  id ← ok_or peer.token_id (authorization "guest lacks token")
  refuse_if (is_revoked d id) (authorization "token revoked")
  check_expiry peer.expires_at now

module _ ⦃c : Crates⦄ where
  unfoldable pub in_scope : TrustedPeer → Option ℕ → Bytes → Direction → Bool
  in_scope peer capsule kind direction =
      is_some_and peer.scopes (λ s. allows s capsule kind direction)

  -- The branch of a guest
  unfoldable pub authorize_guest :
      TrustDisk → TrustedPeer → ℕ → Option ℕ → Bytes → Direction → ℕ → Result (Unit {0})
  authorize_guest d actor other capsule kind direction now = do
    other_role ← ok_or (get d.peers other) (authorization "unknown counterparty")
    refuse_if (is_guest other_role.role && is_personal d.mesh_profile)
        (authorization "guest-to-guest forbidden")
    check_token d actor now
    refuse_if (not (in_scope actor capsule kind direction)) (authorization "out of scope")
    refuse_if
        (is_guest other_role.role && not (in_scope other_role capsule kind (opposite direction)))
        (authorization "guest counterparty out of scope")

  unfoldable pub authorize_offer :
      TrustDisk → ℕ → ℕ → Option ℕ → Bytes → Direction → ℕ → Result (Unit {0})
  authorize_offer d actor_id other capsule kind direction now = do
    actor ← ok_or (get d.peers actor_id) (authorization "untrusted peer")
    if is_guest actor.role then authorize_guest d actor other capsule kind direction now else ok tt

unfoldable pub check_lease_scope : TrustedPeer → Bool → Result (Unit {0})
check_lease_scope peer takeover = do
  scopes ← ok_or peer.scopes (authorization "guest lacks scopes")
  refuse_if (takeover && not scopes.lease_takeover || (not takeover && not scopes.lease_acquire))
      (authorization "lease operation out of scope")

unfoldable pub authorize_lease : TrustDisk → ℕ → Bool → ℕ → Result (Unit {0})
authorize_lease d actor takeover now = do
  peer ← ok_or (get d.peers actor) (authorization "untrusted peer")
  if is_guest peer.role then check_token d peer now >> check_lease_scope peer takeover else ok tt
