-- ===== src/Capsule/Ancestry/Fuel.antt =====
-- The loop of `descends_from` always ends.
use mathlib.Core.List.{reverse, reverse-cons}
use abra.Prelude.{
  ℕ, zero, suc, ◌+◌, ◌≤◌, ◌≡◌, refl, inl, inr, Bool, true, false, ◌||◌, some, List, [], ◌∷◌, ◌++◌,
  arith, length, length-append, ◌==◌, nat_eq, Bool-cases, if◌then◌else◌,
}
use abra.Prelude.Map.{get}
use abra.Capsule.Snapshot.{Snapshots, parents_of}
use abra.Capsule.Ancestry.{contains, parents_at, search_from, search_fuel, descends}

pub contains-append :
    (xs ys : List ℕ) (a : ℕ) → contains (xs ++ ys) a ≡ (contains xs a || contains ys a)
contains-append [] ys a = refl
contains-append (x ∷ xs) ys a = ground (arith, contains-append xs ys a)

pub contains-reverse : (xs : List ℕ) (a : ℕ) → contains (reverse xs) a ≡ contains xs a
contains-reverse [] a = refl
contains-reverse (x ∷ xs) a =
    rw (reverse-cons x xs, contains-append (reverse xs) (x ∷ []) a)
      (ground (arith, contains-reverse xs a))

length-reverse : (ids : List ℕ) → length (reverse ids) ≡ length ids
length-reverse [] = refl
length-reverse (id ∷ ids) =
    let ih = length-reverse ids in
    let added = length-append (reverse ids) (id ∷ []) in
    ground (arith, ih, added, reverse-cons id ids)

-- How many pushes are left: the parents of the entries that are not yet expanded.
abbrev cost : Snapshots → List ℕ → ℕ
cost [] seen = 0
cost ((k, r) ∷ m) seen = (if contains seen k then 0 else length (parents_of r)) + cost m seen

cost_mono : (m : Snapshots) (id : ℕ) (seen : List ℕ) → cost m (id ∷ seen) ≤ cost m seen
cost_mono [] id seen = omega arith
cost_mono ((k, r) ∷ m) id seen = ground (arith, cost_mono m id seen)

cost-expand :
    (m : Snapshots) (id : ℕ) (seen : List ℕ)
    → contains seen id ≡ false
    → length (parents_at m id) + cost m (id ∷ seen) ≤ cost m seen
unfolding parents_at get
cost-expand [] id seen h = omega arith
cost-expand ((k, r) ∷ m) id seen h = ground (arith, cost_mono m id seen, cost-expand m id seen h)

cost-fuel : (m : Snapshots) → suc (cost m []) ≡ search_fuel m
unfolding search_fuel
cost-fuel [] = refl
cost-fuel ((k, r) ∷ m) = omega (arith, cost-fuel m)

-- With fuel for the stack and for the pushes to come the loop ends.
pub search_from-total :
    (fuel : ℕ) (m : Snapshots) (a : ℕ) (pending seen : List ℕ)
    → length pending + cost m seen ≤ fuel
    → (b : Bool) × (search_from fuel m a pending seen ≡ some b)
unfolding search_from
search_from-total zero m a [] seen h = (false, refl)
search_from-total (suc fuel) m a [] seen h = (false, refl)
search_from-total zero m a (id ∷ pending) seen h = absurd (omega arith)
search_from-total (suc fuel) m a (id ∷ pending) seen h = elim (Bool-cases (id == a)) [
  | inl hit ↦ (true, rw hit)
  | inr miss ↦ elim (Bool-cases (contains seen id)) [
    | inl old ↦ rw (miss, old) (search_from-total fuel m a pending seen (omega arith))
    | inr new ↦
        rw (miss, new)
          (search_from-total fuel m a (reverse (parents_at m id) ++ pending) (id ∷ seen) (
            omega (
              arith,
              cost-expand m id seen new,
              length-append (reverse (parents_at m id)) pending,
              length-reverse (parents_at m id),
            )))
  ]
]

-- The fuel of `descends_from` is enough for every capsule, so that the loop gives an answer.
pub descends-total :
    (m : Snapshots) (candidate ancestor : ℕ) → (b : Bool) × (descends m candidate ancestor ≡ some b)
unfolding descends
descends-total m candidate ancestor =
    search_from-total (search_fuel m) m ancestor (candidate ∷ []) [] (omega (arith, cost-fuel m))
