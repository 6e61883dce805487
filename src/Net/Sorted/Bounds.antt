-- ===== src/Net/Sorted/Bounds.antt =====
-- How many keys a `BTreeSet` has when its keys come from a list.
use abra.Prelude.{
  Eq, ℕ, ◌+◌, ◌≤◌, ◌≡◌, inl, inr, refl, Bool, true, false, none, List, [], ◌∷◌, any, length, ◌==◌,
  nat_eq, arith, Bool-cases,
}
use abra.Prelude.Map.{Map, get, contains_key}
use abra.Net.Sorted.{BTreeSet, remove, IsDistinct, get-remove, remove-IsDistinct}

abbrev pub is_in : ℕ → List ℕ → Bool
is_in k list = any (λ j. j == k) list

module _ {ℓ κ} {K : Type ℓ} {V : Type κ} ⦃e : Eq K⦄ where
  remove-absent : (m : Map K V) (k : K) → get m k ≡ none → remove m k ≡ m
  unfolding get remove
  remove-absent [] k h = refl
  remove-absent ((j, w) ∷ m) k h = ground (arith, remove-absent m k)

  pub length-remove :
      (m : Map K V) (k : K)
      → IsDistinct m
      → contains_key m k ≡ true
      → length m ≡ length (remove m k) + 1
  unfolding contains_key get remove
  length-remove [] k d h = absurd (ground arith)
  length-remove ((j, w) ∷ m) k (fresh, d) h = elim (Bool-cases (j == k)) [
    | inl same ↦
        let at : j ≡ k = ground (arith, same, e.same_iff j k) in
        let gone : remove m k ≡ m = remove-absent m k (ground (arith, at, fresh)) in
        ground (arith, same, gone)
    | inr other ↦ ground (arith, other, length-remove m k d)
  ]

removed-contains :
    (m : BTreeSet ℕ) (x k : ℕ) → contains_key (remove m x) k ≡ true → contains_key m k ≡ true
unfolding contains_key
removed-contains m x k h = ground (arith, h, get-remove m x k)

abbrev IsWithin : BTreeSet ℕ → List ℕ → Type 0
IsWithin m list = (k : ℕ) → contains_key m k ≡ true → is_in k list ≡ true

IsWithin-remove :
    (m : BTreeSet ℕ) (x : ℕ) (list : List ℕ) → IsWithin m (x ∷ list) → IsWithin (remove m x) list
unfolding contains_key
IsWithin-remove m x list h k held = ground (arith, held, get-remove m x k, h k)

IsWithin-skip :
    (m : BTreeSet ℕ) (x : ℕ) (list : List ℕ)
    → contains_key m x ≡ false
    → IsWithin m (x ∷ list)
    → IsWithin m list
IsWithin-skip m x list absent h k held = elim (Bool-cases (x == k)) [
  | inl same ↦ absurd (let at : x ≡ k = ground (arith, same) in ground (arith, absent, held, at))
  | inr other ↦ ground (arith, other, h k held)
]

length-IsWithin :
    (list : List ℕ) (m : BTreeSet ℕ) → IsDistinct m → IsWithin m list → length m ≤ length list
unfolding contains_key get
length-IsWithin [] [] d h = omega arith
length-IsWithin [] ((j, w) ∷ m) d h = absurd (ground (arith, h j))
length-IsWithin (x ∷ list) m d h = elim (Bool-cases (contains_key m x)) [
  | inl held ↦
      let shorter =
        length-IsWithin list (remove m x) (remove-IsDistinct m x d) (IsWithin-remove m x list h) in
      ground (arith, shorter, length-remove m x d held)
  | inr absent ↦
      let same = length-IsWithin list m d (IsWithin-skip m x list absent h) in ground (arith, same)
]

-- A set of keys of a list that has as many keys as the list is long holds them all.
pub IsWithin-all :
    (list : List ℕ) (m : BTreeSet ℕ)
    → IsDistinct m
    → ((k : ℕ) → contains_key m k ≡ true → is_in k list ≡ true)
    → length list ≤ length m
    → (k : ℕ) → is_in k list ≡ true
    → contains_key m k ≡ true
IsWithin-all [] m d h long k held = absurd (ground arith)
IsWithin-all (x ∷ list) m d h long k held = elim (Bool-cases (contains_key m x)) [
  | inr absent ↦ absurd (
      let short = length-IsWithin list m d (IsWithin-skip m x list absent h) in
      ground (arith, short, long))
  | inl present ↦ elim (Bool-cases (x == k)) [
    | inl same ↦ (let at : x ≡ k = ground (arith, same) in ground (arith, present, at))
    | inr other ↦
        let rest =
          IsWithin-all list (remove m x) (remove-IsDistinct m x d) (IsWithin-remove m x list h)
            (ground (arith, long, length-remove m x d present)) k (ground (arith, held, other)) in
        removed-contains m x k rest
  ]
]
