-- ===== src/Net/Auth/Save/Oldest.antt =====
-- Which entries `evict_oldest` of crates/abra-net/src/auth.rs evicts.
use abra.Prelude.{
  ℕ, zero, suc, ◌≤◌, ◌≡◌, inl, inr, none, some, [], ◌∷◌, length, Eq, ◌==◌, ==_refl, ltb, leb, ◌+◌,
  if◌then◌else◌, arith, Bool-cases,
}
use abra.Prelude.Map.{Map, get, contains_key}
use abra.Net.Sorted.{IsDistinct, remove-IsDistinct, get-remove}
use abra.Net.Sorted.Bounds.{length-remove}
use abra.Net.Auth.Save.{oldest_of, evict_one, evict_loop, evict_oldest}

module _ {ℓ κ} {K : Type ℓ} {V : Type κ} ⦃e : Eq K⦄ where
  module _ (age : V → ℕ) where
    oldest_of-best : (best : K × V) (m : Map K V) → age (oldest_of age best m).1 ≤ age best.1
    unfolding oldest_of
    oldest_of-best best [] = omega arith
    oldest_of-best best (x ∷ m) = ground (arith, oldest_of-best x m, oldest_of-best best m)

    oldest_of-least :
        (best : K × V) (m : Map K V) (k : K) (v : V)
        → get (best ∷ m) k ≡ some v
        → age (oldest_of age best m).1 ≤ age v
    unfolding oldest_of get
    oldest_of-least best [] k v h = ground arith
    oldest_of-least best (x ∷ m) k v h = ground (
      arith,
      oldest_of-least x m k v,
      oldest_of-least best m k v,
      oldest_of-best x m,
      oldest_of-best best m,
    )

    oldest_of-get :
        (best : K × V) (m : Map K V)
        → IsDistinct (best ∷ m)
        → get (best ∷ m) (oldest_of age best m).0 ≡ some (oldest_of age best m).1
    unfolding oldest_of get
    oldest_of-get best [] h = ground (arith, ==_refl best.0)
    oldest_of-get best (x ∷ m) (fresh, (fresh', h)) =
        elim (Bool-cases (ltb (age x.1) (age best.1))) [
          | inl younger ↦
              ground (arith, oldest_of-get x m (fresh', h), e.same_iff best.0 (oldest_of age x m).0)
          | inr older ↦ ground (
            arith,
            oldest_of-get best m (ground arith, h),
            e.same_iff x.0 (oldest_of age best m).0,
          )
        ]

    evict_loop-get :
        (fuel limit : ℕ) (m : Map K V) (k : K) (v : V)
        → get (evict_loop age fuel limit m) k ≡ some v
        → get m k ≡ some v
    unfolding evict_loop evict_one
    evict_loop-get zero limit m k v h = h
    evict_loop-get (suc fuel) limit [] k v h = ground (arith, evict_loop-get fuel limit [] k v)
    evict_loop-get (suc fuel) limit (x ∷ m) k v h = ground (
      arith,
      evict_loop-get fuel limit (evict_one age (x ∷ m)) k v,
      get-remove (x ∷ m) (oldest_of age x m).0 k,
    )

    evict_loop-age :
        (fuel limit : ℕ) (m : Map K V) (k j : K) (v w : V)
        → IsDistinct m
        → get m k ≡ some v
        → get (evict_loop age fuel limit m) k ≡ none
        → get (evict_loop age fuel limit m) j ≡ some w
        → age v ≤ age w
    unfolding evict_loop
    evict_loop-age zero limit m k j v w h there gone kept = absurd (ground arith)
    evict_loop-age (suc fuel) limit [] k j v w h there gone kept = absurd (ground arith)
    evict_loop-age (suc fuel) limit (x ∷ m) k j v w h there gone kept =
        let o = oldest_of age x m in
        let was = evict_loop-get (suc fuel) limit (x ∷ m) j w kept in
        elim (Bool-cases (o.0 == k)) [
          | inl same ↦
              ground (arith, oldest_of-get x m h, oldest_of-least x m j w was, e.same_iff o.0 k)
          | inr other ↦
              let there' : get (evict_one age (x ∷ m)) k ≡ some v =
                unfold evict_one in (ground (arith, get-remove (x ∷ m) o.0 k)) in
              let h' : IsDistinct (evict_one age (x ∷ m)) =
                unfold evict_one in (remove-IsDistinct (x ∷ m) o.0 h) in
              ground (arith, evict_loop-age fuel limit (evict_one age (x ∷ m)) k j v w h' there')
        ]

    evict_one-IsDistinct : (m : Map K V) → IsDistinct m → IsDistinct (evict_one age m)
    unfolding evict_one
    evict_one-IsDistinct [] h = tt
    evict_one-IsDistinct (x ∷ m) h = remove-IsDistinct (x ∷ m) (oldest_of age x m).0 h

    -- Each round removes one entry: the fuel is enough, and no round is one too many.
    length-evict_loop :
        (fuel limit : ℕ) (m : Map K V)
        → IsDistinct m
        → length m ≤ fuel
        → length (evict_loop age fuel limit m) ≡ (if leb (length m) limit then length m else limit)
    unfolding evict_loop
    length-evict_loop zero limit m h enough = ground (arith, enough)
    length-evict_loop (suc fuel) limit [] h enough =
        ground (arith, length-evict_loop fuel limit [] tt (omega arith))
    length-evict_loop (suc fuel) limit (x ∷ m) h enough =
        let o = oldest_of age x m in
        let one : length (x ∷ m) ≡ length (evict_one age (x ∷ m)) + 1 =
          unfold evict_one contains_key in
          (length-remove (x ∷ m) o.0 h (ground (arith, oldest_of-get x m h))) in
        let rest =
          length-evict_loop fuel limit (evict_one age (x ∷ m)) (evict_one-IsDistinct (x ∷ m) h)
            (omega (arith, one, enough)) in
        ground (arith, one, rest)

    -- evict_oldest leaves the entries of the map as they were, all of them if they are at most `limit`
    -- and exactly `limit` otherwise, and what it evicts is no younger than anything that it keeps,
    -- given that the keys are distinct.
    pub evict_oldest-oldest :
        (m : Map K V) (limit : ℕ)
        → IsDistinct m
        → (length (evict_oldest age m limit) ≡ (if leb (length m) limit then length m else limit))
          × ((k : K) (v : V) → get (evict_oldest age m limit) k ≡ some v → get m k ≡ some v)
          × ((k j : K) (v w : V)
              → get m k ≡ some v
              → get (evict_oldest age m limit) k ≡ none
              → get (evict_oldest age m limit) j ≡ some w
              → age v ≤ age w)
    unfolding evict_oldest
    evict_oldest-oldest m limit h = (
      length-evict_loop (length m) limit m h (omega arith),
      λ k v kept. evict_loop-get (length m) limit m k v kept,
      λ k j v w there gone kept. evict_loop-age (length m) limit m k j v w h there gone kept,
    )
