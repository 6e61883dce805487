-- ===== src/Capsule/Ancestry.antt =====
-- `Capsule::descends_from` of crates/abra-core/src/capsule.rs.
pub mod Fuel
pub mod Search
use mathlib.Core.List.{reverse}
use abra.Prelude.{
  ℕ, zero, suc, ◌+◌, Bool, true, false, Option, none, some, List, [], ◌∷◌, ◌++◌, length, any, ◌==◌,
  nat_eq, if◌then◌else◌,
}
use abra.Prelude.Map.{get}
use abra.Capsule.Snapshot.{Snapshots, parents_of}
use abra.Capsule.State.{Capsule, SnapshotRecord}

-- `seen` as the list of its elements
abbrev pub contains : List ℕ → ℕ → Bool
contains xs a = any (λ x. x == a) xs

abbrev pub parents_in : Option SnapshotRecord → List ℕ
parents_in none = []
parents_in (some r) = parents_of r

-- The parents of a snapshot that the capsule holds.
unfoldable pub parents_at : Snapshots → ℕ → List ℕ
unfolding get
parents_at m id = parents_in (get m id)

-- The loop over the stack `pending`, its top first; `none` when the fuel is out.
unfoldable pub search_from : ℕ → Snapshots → ℕ → List ℕ → List ℕ → Option Bool
unfolding parents_at
search_from fuel m ancestor [] seen = some false
search_from zero m ancestor (id ∷ pending) seen = none
search_from (suc fuel) m ancestor (id ∷ pending) seen =
    let skip = search_from fuel m ancestor pending seen in
    let expand = search_from fuel m ancestor (reverse (parents_at m id) ++ pending) (id ∷ seen) in
    if id == ancestor then some true else if contains seen id then skip else expand

-- Every push is of the first id, or of a parent of an entry that is expanded once.
unfoldable pub search_fuel : Snapshots → ℕ
search_fuel [] = 1
search_fuel ((k, r) ∷ m) = length (parents_of r) + search_fuel m

unfoldable pub descends : Snapshots → ℕ → ℕ → Option Bool
unfolding search_from search_fuel
descends m candidate ancestor = search_from (search_fuel m) m ancestor (candidate ∷ []) []

abbrev pub or_false : Option Bool → Bool
or_false none = false
or_false (some b) = b

-- The fuel is enough, so that `none` does not occur: `Capsule/Ancestry/Fuel.antt`.
unfoldable pub descends_from : Capsule → ℕ → ℕ → Bool
unfolding descends
descends_from s candidate ancestor = or_false (descends s.snapshots candidate ancestor)
