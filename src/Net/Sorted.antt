-- ===== src/Net/Sorted.antt =====
-- `BTreeMap` and `BTreeSet` where the order of iteration matters: association lists in the order of
-- their keys. A set is a map to `Unit`, as in Rust.
pub mod Bounds
use Prim.Native.Nat.{ℕ}
use abra.Prelude.{
  ◌≡◌, refl, Bytes, Bool, true, ◌||◌, not, none, some, [], ◌∷◌, retain, Eq, ◌==◌, ltb, is_some,
  if◌then◌else◌, arith, Bool-cases, inl, inr,
}
use abra.Prelude.Map.{Map, get, contains_key}
use abra.Cas.Tree.{bytes_lt}

pub record Ord {ℓ} (Key : Type ℓ) : Type ℓ where
  pub before : Key → Key → Bool

instance abbrev pub nat_ord : Ord ℕ
nat_ord = record { before = ltb }

instance abbrev pub bytes_ord : Ord Bytes
bytes_ord = record { before = bytes_lt }

abbrev pub BTreeSet {ℓ} : Type ℓ → Type ℓ
BTreeSet K = Map K (Unit {0})

module _ {ℓ κ} {K : Type ℓ} {V : Type κ} where
  -- `retain`
  abbrev pub retain_entries : (K → V → Bool) → Map K V → Map K V
  retain_entries p m = retain (λ (e : K × V). p e.0 e.1) m

  module _ ⦃e : Eq K⦄ where
    unfoldable pub remove : Map K V → K → Map K V
    remove m k = retain_entries (λ j v. not (j == k)) m

    module _ ⦃o : Ord K⦄ where
      unfoldable pub insert : Map K V → K → V → Map K V
      insert [] k v = (k, v) ∷ []
      insert ((j, w) ∷ m) k v =
          let rest = (j, w) ∷ insert m k v in
          if j == k then (j, v) ∷ m else (if o.before k j then (k, v) ∷ ((j, w) ∷ m) else rest)

      -- `extend`; the keys of a map are distinct, so that the order of the insertions is free
      unfoldable pub extend : Map K V → Map K V → Map K V
      unfolding insert
      extend m [] = m
      extend m ((k, v) ∷ n) = insert (extend m n) k v

      pub get-insert :
          (m : Map K V) (k j : K) (v : V)
          → get (insert m k v) j ≡ (if k == j then some v else get m j)
      unfolding get insert
      get-insert [] k j v = refl
      get-insert ((i, w) ∷ m) k j v =
          ground (arith, get-insert m k j v, e.same_iff i k, e.same_iff i j, e.same_iff k j)

      pub get-extend :
          (m n : Map K V) (k : K)
          → get (extend m n) k ≡ (if is_some (get n k) then get n k else get m k)
      unfolding get extend
      get-extend m [] k = refl
      get-extend m ((j, v) ∷ n) k = ground (arith, get-insert (extend m n) j k v, get-extend m n k)

      pub contains_key-extend :
          (m n : Map K V) (k : K)
          → contains_key (extend m n) k ≡ (contains_key n k || contains_key m k)
      unfolding contains_key
      contains_key-extend m n k = ground (arith, get-extend m n k)

    pub get-remove :
        (m : Map K V) (k j : K) → get (remove m k) j ≡ (if k == j then none else get m j)
    unfolding get remove
    get-remove [] k j = ground arith
    get-remove ((i, w) ∷ m) k j =
        ground (arith, get-remove m k j, e.same_iff i k, e.same_iff i j, e.same_iff k j)

    -- What a `retain` leaves.
    pub get-retain_none :
        (p : K → V → Bool) (m : Map K V) (k : K)
        → get m k ≡ none
        → get (retain_entries p m) k ≡ none
    unfolding get
    get-retain_none p [] k h = refl
    get-retain_none p ((j, w) ∷ m) k h = ground (arith, get-retain_none p m k)

    pub get-retain_some :
        (p : K → V → Bool) (m : Map K V) (k : K) (v : V)
        → get (retain_entries p m) k ≡ some v
        → p k v ≡ true
    unfolding get
    get-retain_some p [] k v h = ground arith
    get-retain_some p ((j, w) ∷ m) k v h = ground (arith, get-retain_some p m k v, e.same_iff j k)

    pub get-retain_kept :
        (p : K → V → Bool) (m : Map K V) (k : K) (v : V)
        → get m k ≡ some v
        → p k v ≡ true
        → get (retain_entries p m) k ≡ some v
    unfolding get
    get-retain_kept p [] k v h kept = ground arith
    get-retain_kept p ((j, w) ∷ m) k v h kept =
        ground (arith, get-retain_kept p m k v, e.same_iff j k)

    -- The keys of a `BTreeMap` are distinct.
    abbrev pub IsDistinct : Map K V → Type (ℓ ⊔ κ)
    IsDistinct [] = Unit
    IsDistinct (x ∷ m) = (get m x.0 ≡ none) × IsDistinct m

    pub remove-IsDistinct : (m : Map K V) (k : K) → IsDistinct m → IsDistinct (remove m k)
    unfolding remove
    remove-IsDistinct [] k h = tt
    remove-IsDistinct (x ∷ m) k (fresh, h) =
        let rest = remove-IsDistinct m k h in
        let absent = get-retain_none (λ (j : K) (v : V). not (j == k)) m x.0 fresh in ground arith

    module _ ⦃o : Ord K⦄ where
      pub insert-IsDistinct :
          (m : Map K V) (k : K) (v : V) → get m k ≡ none → IsDistinct m → IsDistinct (insert m k v)
      unfolding insert get
      insert-IsDistinct [] k v fresh h = (refl, tt)
      insert-IsDistinct ((j, w) ∷ m) k v fresh (first, h) = elim (Bool-cases (j == k)) [
        | inl same ↦ absurd (ground arith)
        | inr other ↦
            let rest = insert-IsDistinct m k v (ground arith) h in
            ground (arith, get-insert m k j v, e.same_iff k j, e.same_iff j k)
      ]
