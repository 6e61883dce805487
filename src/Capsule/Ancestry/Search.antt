-- ===== src/Capsule/Ancestry/Search.antt =====
-- `descends_from` decides the ancestry of snapshots.
use mathlib.Core.List.{reverse}
use abra.Prelude.{
  ℕ, zero, suc, ◌≡◌, ◌≢◌, refl, ap, ◌∙◌, inl, inr, ◌↔◌, Bool, true, false, ◌||◌, some, List, [],
  ◌∷◌, ◌++◌, arith, ◌==◌, nat_eq, Bool-cases,
}
use abra.Capsule.Snapshot.{Snapshots}
use abra.Capsule.State.{Capsule}
use abra.Capsule.Ancestry.{contains, parents_at, search_from, search_fuel, descends, descends_from}
use abra.Capsule.Ancestry.Fuel.{contains-append, contains-reverse, descends-total}

-- `y` is reached from `c` by going from snapshots to their parents.
pub data Descends (m : Snapshots) (c : ℕ) : ℕ → Type 0 where
  here : Descends m c c
  up : (x y : ℕ) → Descends m c x → contains (parents_at m x) y ≡ true → Descends m c y

-- Every id of the stack is reached from the candidate.
abbrev AllReached : Snapshots → ℕ → List ℕ → Type 0
AllReached m c xs = (x : ℕ) → contains xs x ≡ true → Descends m c x

expand-AllReached :
    (m : Snapshots) (c id : ℕ) (pending : List ℕ)
    → AllReached m c (id ∷ pending)
    → AllReached m c (reverse (parents_at m id) ++ pending)
expand-AllReached m c id pending h x e = elim (Bool-cases (contains (parents_at m id) x)) [
  | inl p ↦ up id x (h id (ground arith)) p
  | inr n ↦ h x (
      ground (
        arith,
        contains-append (reverse (parents_at m id)) pending x,
        contains-reverse (parents_at m id) x,
      ))
]

search_from_sound :
    (fuel : ℕ) (m : Snapshots) (c a : ℕ) (pending seen : List ℕ)
    → AllReached m c pending
    → search_from fuel m a pending seen ≡ some true
    → Descends m c a
unfolding search_from
search_from_sound zero m c a [] seen h e = cc
search_from_sound (suc fuel) m c a [] seen h e = cc
search_from_sound zero m c a (id ∷ pending) seen h e = cc
search_from_sound (suc fuel) m c a (id ∷ pending) seen h e = elim (Bool-cases (id == a)) [
  | inl hit ↦ h a (ground arith)
  | inr miss ↦ elim (Bool-cases (contains seen id)) [
    | inl old ↦ search_from_sound fuel m c a pending seen (λ x p. h x (ground arith)) (ground arith)
    | inr new ↦
        search_from_sound fuel m c a (reverse (parents_at m id) ++ pending) (id ∷ seen)
          (expand-AllReached m c id pending h) (ground arith)
  ]
]

-- The candidate is on the stack or seen; what is seen is not the ancestor, and its parents are on
-- the stack or seen.
record Frontier (m : Snapshots) (c a : ℕ) (pending seen : List ℕ) : Type 0 where
  start : (contains pending c || contains seen c) ≡ true
  avoid : (x : ℕ) → contains seen x ≡ true → x ≢ a
  closed :
      (x y : ℕ)
      → contains seen x ≡ true
      → contains (parents_at m x) y ≡ true
      → (contains pending y || contains seen y) ≡ true

skip-Frontier :
    (m : Snapshots) (c a id : ℕ) (pending seen : List ℕ)
    → contains seen id ≡ true
    → Frontier m c a (id ∷ pending) seen
    → Frontier m c a pending seen
skip-Frontier m c a id pending seen old v = record {
  start = ground (arith, v.start);
  avoid = v.avoid;
  closed = λ x y p q. ground (arith, v.closed x y p q);
}

expand-Frontier :
    (m : Snapshots) (c a id : ℕ) (pending seen : List ℕ)
    → (id == a) ≡ false
    → Frontier m c a (id ∷ pending) seen
    → Frontier m c a (reverse (parents_at m id) ++ pending) (id ∷ seen)
expand-Frontier m c a id pending seen miss v = record {
  start = ground (arith, v.start, on_stack c);
  avoid = λ x p. ground (arith, v.avoid x);
  closed = λ x y p q. ground (arith, v.closed x y, on_stack y);
}
  where
    on_stack :
        (y : ℕ)
        → contains (reverse (parents_at m id) ++ pending) y
          ≡ (contains (parents_at m id) y || contains pending y)
    on_stack y =
        contains-append (reverse (parents_at m id)) pending y
        ∙ ap (λ b. b || contains pending y) (contains-reverse (parents_at m id) y)

-- What is seen at the end holds every id that is reached.
Frontier-Descends :
    (m : Snapshots) (c a : ℕ) (seen : List ℕ)
    → Frontier m c a [] seen
    → {y : ℕ} → Descends m c y
    → contains seen y ≡ true
Frontier-Descends m c a seen v here = v.start
Frontier-Descends m c a seen v (up x y d p) = v.closed x y (Frontier-Descends m c a seen v d) p

search_from_complete :
    (fuel : ℕ) (m : Snapshots) (c a : ℕ) (pending seen : List ℕ)
    → Frontier m c a pending seen
    → search_from fuel m a pending seen ≡ some false
    → ¬ Descends m c a
unfolding search_from
search_from_complete zero m c a [] seen v e d = v.avoid a (Frontier-Descends m c a seen v d) refl
search_from_complete (suc fuel) m c a [] seen v e d =
    v.avoid a (Frontier-Descends m c a seen v d) refl
search_from_complete zero m c a (id ∷ pending) seen v e d = cc
search_from_complete (suc fuel) m c a (id ∷ pending) seen v e d = elim (Bool-cases (id == a)) [
  | inl hit ↦ ground arith
  | inr miss ↦ elim (Bool-cases (contains seen id)) [
    | inl old ↦
        search_from_complete fuel m c a pending seen (skip-Frontier m c a id pending seen old v)
          (ground arith) d
    | inr new ↦
        search_from_complete fuel m c a (reverse (parents_at m id) ++ pending) (id ∷ seen)
          (expand-Frontier m c a id pending seen miss v) (ground arith) d
  ]
]

start-Frontier : (m : Snapshots) (c a : ℕ) → Frontier m c a (c ∷ []) []
start-Frontier m c a = record { start = ground arith; avoid = λ x p. cc; closed = λ x y p q. cc }

start-AllReached : (m : Snapshots) (c : ℕ) → AllReached m c (c ∷ [])
start-AllReached m c x e = rw (← meets) here
  where
    meets : c ≡ x
    meets = ground arith

-- `descends_from` holds exactly if the ancestor is reached from the candidate by going from
-- snapshots that the capsule holds to their parents, in any number of steps. It always answers.
pub descends_from-Descends :
    (s : Capsule) (candidate ancestor : ℕ)
    → (descends_from s candidate ancestor ≡ true) ↔ Descends s.snapshots candidate ancestor
unfolding descends_from descends
descends_from-Descends s candidate ancestor = (sound, complete)
  where
    m : Snapshots
    m = s.snapshots

    sound : descends_from s candidate ancestor ≡ true → Descends m candidate ancestor
    sound h =
        search_from_sound (search_fuel m) m candidate ancestor (candidate ∷ []) []
          (start-AllReached m candidate) (ground arith)

    complete : Descends m candidate ancestor → descends_from s candidate ancestor ≡ true
    complete d = go (descends-total m candidate ancestor)
      where
        go :
            (b : Bool) × (descends m candidate ancestor ≡ some b)
            → descends_from s candidate ancestor ≡ true
        go (true, e) = ground arith
        go (false, e) = absurd (
            search_from_complete (search_fuel m) m candidate ancestor (candidate ∷ []) []
              (start-Frontier m candidate ancestor) e d)
