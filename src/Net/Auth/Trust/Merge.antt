-- ===== src/Net/Auth/Trust/Merge.antt =====
-- What a merge of two trust states leaves of a peer (crates/abra-net/src/auth.rs).
use abra.Prelude.{
  ℕ, ◌≡◌, refl, Bool, false, ◌||◌, Option, none, some, List, [], ◌∷◌, ◌++◌, ◌==◌, ◌⊎◌, nat_eq,
  bytes_eq, ltb, any, is_some, if◌then◌else◌, arith, Bool-cases, inl, inr,
}
use abra.Prelude.Map.{Map, get, keys}
use abra.Net.Sorted.{get-insert, get-remove, nat_ord}
use abra.Net.Auth.Trust.{
  TrustDisk, TrustedPeer, version_of, take_over, merge_peer, merge_peers, merge_maps, drop_settled,
  merge_disk_state,
}

-- The independent description: the newer version's value; of equal ones the handle's, where an
-- absence counts if the peer has ever had a version.
abbrev pub winner {ℓ} : {V : Type ℓ} → ℕ → ℕ → Option V → Option V → Option V
winner ours theirs mine other =
    if ltb ours theirs
    then other
    else (if is_some mine then mine else (if ltb 0 ours then none else other))

get-take_over {ℓ} :
    {V : Type ℓ} (m : Map ℕ V) (p k : ℕ) (o : Option V) (v : ℕ)
    → get (take_over m p o v) k
      ≡ (if p == k then (if is_some o then o else (if ltb 0 v then none else get m k)) else get m k)
unfolding take_over
get-take_over m p k (some x) v = get-insert m p k x
get-take_over m p k none v = ground (arith, get-remove m p k)

merge_peer-other :
    (mine merged : TrustDisk) (p k : ℕ)
    → (p == k) ≡ false
    → (get (merge_peer mine p merged).peers k ≡ get merged.peers k)
      × (version_of (merge_peer mine p merged) k ≡ version_of merged k)
unfolding merge_peer version_of
merge_peer-other mine merged p k other = ground (
  arith,
  get-take_over merged.peers p k (get mine.peers p) (version_of mine p),
  get-insert merged.peer_versions p k (version_of mine p),
)

-- The greater of two versions.
abbrev pub later : ℕ → ℕ → ℕ
later a b = if ltb a b then b else a

module _ (mine theirs : TrustDisk) (k : ℕ) where
  abbrev outcome : Option TrustedPeer
  outcome = winner (version_of mine k) (version_of theirs k) (get mine.peers k) (get theirs.peers k)

  abbrev IsOpen : TrustDisk → Type 0
  IsOpen merged =
      (get merged.peers k ≡ get theirs.peers k) × (version_of merged k ≡ version_of theirs k)

  abbrev IsSettled : TrustDisk → Type 0
  IsSettled merged =
      (get merged.peers k ≡ outcome)
      × (version_of merged k ≡ later (version_of mine k) (version_of theirs k))

  merge_peer-IsSettled :
      (merged : TrustDisk) → IsOpen merged ⊎ IsSettled merged → IsSettled (merge_peer mine k merged)
  unfolding merge_peer version_of
  merge_peer-IsSettled merged h = ground (
    arith,
    get-take_over merged.peers k k (get mine.peers k) (version_of mine k),
    get-insert merged.peer_versions k k (version_of mine k),
    nat_eq.same_iff k k,
  )

  abbrev is_listed : List ℕ → Bool
  is_listed list = any (λ p. p == k) list

  merge_peers-IsSettled :
      (list : List ℕ) (merged : TrustDisk)
      → IsSettled merged
      → IsSettled (merge_peers mine list merged)
  unfolding merge_peers
  merge_peers-IsSettled [] merged h = h
  merge_peers-IsSettled (p ∷ list) merged h =
      merge_peers-IsSettled list (merge_peer mine p merged) (elim (Bool-cases (p == k)) [
        | inl e ↦ rw ((nat_eq.same_iff p k).0 e) (merge_peer-IsSettled merged (inr h))
        | inr e ↦ ground (arith, merge_peer-other mine merged p k e)
      ])

  merge_peers-listed :
      (list : List ℕ) (merged : TrustDisk)
      → IsOpen merged
      → (if is_listed list
          then IsSettled (merge_peers mine list merged)
          else IsOpen (merge_peers mine list merged))
  unfolding merge_peers
  merge_peers-listed [] merged h = h
  merge_peers-listed (p ∷ list) merged h = elim (Bool-cases (p == k)) [
    | inl e ↦ rw e (
        merge_peers-IsSettled list (merge_peer mine p merged)
          (rw ((nat_eq.same_iff p k).0 e) (merge_peer-IsSettled merged (inl h))))
    | inr e ↦ rw e (
        merge_peers-listed list (merge_peer mine p merged)
          (ground (arith, merge_peer-other mine merged p k e)))
  ]

any-keys {ℓ} : {V : Type ℓ} (m : Map ℕ V) (k : ℕ) → any (λ p. p == k) (keys m) ≡ is_some (get m k)
unfolding get
any-keys [] k = refl
any-keys ((j, v) ∷ m) k = ground (arith, any-keys m k)

any-append {ℓ} :
    {A : Type ℓ} (p : A → Bool) (xs ys : List A) → any p (xs ++ ys) ≡ (any p xs || any p ys)
any-append p [] ys = refl
any-append p (x ∷ xs) ys = ground (arith, any-append p xs ys)

-- After a merge each peer is as the newer of the two states has it, under the greater version; of
-- equal versions the handle's counts, and its absence too if there has been a version.
pub merge_disk_state-winner :
    (mine theirs : TrustDisk) (k : ℕ)
    → let merged = merge_disk_state mine theirs in
      (get merged.peers k
        ≡ winner (version_of mine k) (version_of theirs k) (get mine.peers k) (get theirs.peers k))
      × (version_of merged k ≡ later (version_of mine k) (version_of theirs k))
unfolding merge_disk_state drop_settled merge_maps version_of
merge_disk_state-winner mine theirs k = ground (
  arith,
  merge_peers-listed mine theirs k (keys mine.peers ++ keys mine.peer_versions)
      (merge_maps mine theirs) (refl, refl),
  any-append (λ (p : ℕ). p == k) (keys mine.peers) (keys mine.peer_versions),
  any-keys mine.peers k,
  any-keys mine.peer_versions k,
)
