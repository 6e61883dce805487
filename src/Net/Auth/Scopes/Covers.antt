-- ===== src/Net/Auth/Scopes/Covers.antt =====
-- What the scopes of crates/abra-net/src/auth.rs allow, as a predicate on their lists.
use mathlib.Core.List.{Memᴰ}
use abra.Crates.{Crates}
use abra.Prelude.{
  ℕ, ◌≡◌, ◌⊎◌, inl, inr, sym, Bytes, true, Option, none, some, List, [], ◌∷◌, ◌==◌, bytes_eq, arith,
  Bool-cases,
}
use abra.Net.Auth.Scopes.{
  Scopes, Direction, star, list_allows, only_star, way_allowed, capsule_allowed, allows,
}

-- A list of a scope holds the value or the wildcard.
abbrev pub IsListed : List Bytes → Bytes → Type 0
IsListed list value = Memᴰ star list ⊎ Memᴰ value list

later_in :
    (x : Bytes) (list : List Bytes) (value : Bytes)
    → IsListed list value
    → IsListed (x ∷ list) value
later_in x list value (inl m) = inl (Memᴰ.tail m)
later_in x list value (inr m) = inr (Memᴰ.tail m)

list_allows-IsListed :
    (list : List Bytes) (value : Bytes) → list_allows list value ≡ true → IsListed list value
unfolding list_allows
list_allows-IsListed [] value h = cc
list_allows-IsListed (x ∷ list) value h = elim (Bool-cases (x == star)) [
  | inl e ↦ inl (Memᴰ.head (sym ((bytes_eq.same_iff x star).0 e)))
  | inr e ↦ elim (Bool-cases (x == value)) [
    | inl f ↦ inr (Memᴰ.head (sym ((bytes_eq.same_iff x value).0 f)))
    | inr f ↦ later_in x list value (list_allows-IsListed list value (ground arith))
  ]
]

star_allows : (list : List Bytes) (value : Bytes) → Memᴰ star list → list_allows list value ≡ true
unfolding list_allows
star_allows [] value m = elim m [ ]
star_allows (x ∷ list) value (Memᴰ.head p) = ground (arith, bytes_eq.same_iff x star)
star_allows (x ∷ list) value (Memᴰ.tail m) = ground (arith, star_allows list value m)

value_allows : (list : List Bytes) (value : Bytes) → Memᴰ value list → list_allows list value ≡ true
unfolding list_allows
value_allows [] value m = elim m [ ]
value_allows (x ∷ list) value (Memᴰ.head p) = ground (arith, bytes_eq.same_iff x value)
value_allows (x ∷ list) value (Memᴰ.tail m) = ground (arith, value_allows list value m)

IsListed-list_allows :
    (list : List Bytes) (value : Bytes) → IsListed list value → list_allows list value ≡ true
IsListed-list_allows list value (inl m) = star_allows list value m
IsListed-list_allows list value (inr m) = value_allows list value m

module _ ⦃c : Crates⦄ where
  -- A capsule is listed; an offer of none needs the wildcard.
  abbrev pub CoversCapsule : List Bytes → Option ℕ → Type 0
  CoversCapsule list none = list ≡ star ∷ []
  CoversCapsule list (some capsule) = IsListed list (c.hex32 capsule)

  pub record Covers (s : Scopes) (capsule : Option ℕ) (kind : Bytes) (direction : Direction)
      : Type 0 where
    pub kinds : IsListed s.kinds kind
    pub capsules : CoversCapsule s.capsules capsule
    pub way : way_allowed s direction ≡ true

  only_star-eq : (list : List Bytes) → only_star list ≡ true → list ≡ star ∷ []
  unfolding only_star
  only_star-eq [] h = cc
  only_star-eq (x ∷ []) h = ground (arith, bytes_eq.same_iff x star)
  only_star-eq (x ∷ (y ∷ list)) h = cc

  capsule_allowed-Covers :
      (s : Scopes) (capsule : Option ℕ)
      → capsule_allowed s capsule ≡ true
      → CoversCapsule s.capsules capsule
  unfolding capsule_allowed
  capsule_allowed-Covers s none h = only_star-eq s.capsules h
  capsule_allowed-Covers s (some k) h = list_allows-IsListed s.capsules (c.hex32 k) h

  Covers-capsule_allowed :
      (s : Scopes) (capsule : Option ℕ)
      → CoversCapsule s.capsules capsule
      → capsule_allowed s capsule ≡ true
  unfolding capsule_allowed only_star
  Covers-capsule_allowed s none h = ground (arith, bytes_eq.same_iff star star)
  Covers-capsule_allowed s (some k) h = IsListed-list_allows s.capsules (c.hex32 k) h

  pub allows-Covers :
      (s : Scopes) (capsule : Option ℕ) (kind : Bytes) (direction : Direction)
      → allows s capsule kind direction ≡ true
      → Covers s capsule kind direction
  unfolding allows
  allows-Covers s capsule kind direction h = record {
    kinds = list_allows-IsListed s.kinds kind (ground arith);
    capsules = capsule_allowed-Covers s capsule (ground arith);
    way = ground arith;
  }

  pub Covers-allows :
      (s : Scopes) (capsule : Option ℕ) (kind : Bytes) (direction : Direction)
      → Covers s capsule kind direction
      → allows s capsule kind direction ≡ true
  unfolding allows
  Covers-allows s capsule kind direction h =
      let kind_in = IsListed-list_allows s.kinds kind h.kinds in
      let capsule_in = Covers-capsule_allowed s capsule h.capsules in ground (arith, h.way)
