-- ===== src/Net/Auth/Scopes.antt =====
-- The scopes, roles and directions of crates/abra-net/src/auth.rs.
pub mod Covers
use abra.Crates.{Crates}
use abra.Prelude.{
  ℕ, Bytes, ascii, Bool, true, false, not, ◌&&◌, ◌||◌, Option, none, some, List, [], ◌∷◌, length,
  any, ◌==◌, nat_eq, bytes_eq, Result, ok, protocol, ◌>>◌, refuse_if,
}

pub data Role : Type 0 where
  full guest : Role

pub data MeshProfile : Type 0 where
  personal fleet : MeshProfile

pub data Direction : Type 0 where
  send receive : Direction

abbrev pub is_full : Role → Bool
is_full Role.full = true
is_full Role.guest = false

abbrev pub is_guest : Role → Bool
is_guest Role.full = false
is_guest Role.guest = true

abbrev pub is_personal : MeshProfile → Bool
is_personal MeshProfile.personal = true
is_personal MeshProfile.fleet = false

pub record Scopes : Type 0 where
  pub capsules : List Bytes
  pub kinds : List Bytes
  pub send : Bool
  pub receive : Bool
  pub lease_acquire : Bool
  pub lease_takeover : Bool

abbrev pub star : Bytes
star = ascii "*"

unfoldable pub list_allows : List Bytes → Bytes → Bool
list_allows list value = any (λ x. x == star || x == value) list

abbrev is_empty : List Bytes → Bool
is_empty [] = true
is_empty (x ∷ xs) = false

-- The body of the loop of `validate`.
unfoldable pub bad_wildcard : List Bytes → Bool
bad_wildcard list = is_empty list || (any (λ x. x == star) list && not (length list == 1))

unfoldable pub validate_scopes : Scopes → Result (Unit {0})
validate_scopes s = do
  refuse_if (bad_wildcard s.capsules) (protocol "invalid wildcard scope")
  refuse_if (bad_wildcard s.kinds) (protocol "invalid wildcard scope")

-- `self.capsules.len() == 1 && self.capsules[0] == "*"`
unfoldable pub only_star : List Bytes → Bool
only_star (x ∷ []) = x == star
only_star _ = false

unfoldable pub way_allowed : Scopes → Direction → Bool
way_allowed s Direction.send = s.send
way_allowed s Direction.receive = s.receive

-- The opposite direction, of the match in `authorize_offer`.
unfoldable pub opposite : Direction → Direction
opposite Direction.send = Direction.receive
opposite Direction.receive = Direction.send

module _ ⦃c : Crates⦄ where
  unfoldable pub capsule_allowed : Scopes → Option ℕ → Bool
  capsule_allowed s none = only_star s.capsules
  capsule_allowed s (some capsule) = list_allows s.capsules (c.hex32 capsule)

  unfoldable pub allows : Scopes → Option ℕ → Bytes → Direction → Bool
  allows s capsule kind direction =
      list_allows s.kinds kind && (capsule_allowed s capsule && way_allowed s direction)
