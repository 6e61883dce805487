-- ===== src/Net/Auth/Trust/Fields.antt =====
-- The fields that the loop over the peers in `merge_disk_state` leaves alone, and what a merge leaves
-- of them (crates/abra-net/src/auth.rs).
use abra.Prelude.{
  ℕ, ◌≡◌, refl, ap, ◌∙◌, ◌++◌, Bytes, ◌||◌, List, [], ◌∷◌, is_some, arith, bytes_eq, if◌then◌else◌,
}
use abra.Prelude.Map.{get, contains_key, keys}
use abra.Net.Sorted.{contains_key-extend, get-extend, bytes_ord}
use abra.Net.Auth.Trust.{
  TrustDisk, merge_peer, merge_peers, merge_maps, drop_settled, merge_disk_state,
}

-- The state with the fields on peers cleared.
abbrev rest_of : TrustDisk → TrustDisk
rest_of d = record d { peers = []; peer_versions = []; peer_pair_tickets = [] }

rest_of-merge_peer :
    (mine : TrustDisk) (p : ℕ) (merged : TrustDisk)
    → rest_of (merge_peer mine p merged) ≡ rest_of merged
unfolding merge_peer
rest_of-merge_peer mine p merged = ground arith

rest_of-merge_peers :
    (mine : TrustDisk) (list : List ℕ) (merged : TrustDisk)
    → rest_of (merge_peers mine list merged) ≡ rest_of merged
unfolding merge_peers
rest_of-merge_peers mine [] merged = refl
rest_of-merge_peers mine (p ∷ list) merged =
    rest_of-merge_peers mine list (merge_peer mine p merged) ∙ rest_of-merge_peer mine p merged

module _ (mine theirs : TrustDisk) where
  merged_rest :
      rest_of
        (merge_peers mine (keys mine.peers ++ keys mine.peer_versions) (merge_maps mine theirs))
      ≡ rest_of (merge_maps mine theirs)
  merged_rest =
      rest_of-merge_peers mine (keys mine.peers ++ keys mine.peer_versions) (merge_maps mine theirs)

  -- Sets and maps that a merge joins.
  pub merged_revoked :
      (k : Bytes)
      → contains_key (merge_disk_state mine theirs).revoked k
        ≡ (contains_key mine.revoked k || contains_key theirs.revoked k)
  unfolding merge_disk_state drop_settled merge_maps
  merged_revoked k =
      ap (λ (d : TrustDisk). contains_key d.revoked k) merged_rest
      ∙ contains_key-extend theirs.revoked mine.revoked k

  pub merged_used :
      (k : Bytes)
      → contains_key (merge_disk_state mine theirs).used_tickets k
        ≡ (contains_key mine.used_tickets k || contains_key theirs.used_tickets k)
  unfolding merge_disk_state drop_settled merge_maps
  merged_used k =
      ap (λ (d : TrustDisk). contains_key d.used_tickets k) merged_rest
      ∙ contains_key-extend theirs.used_tickets mine.used_tickets k

  pub merged_cancelled :
      (k : Bytes)
      → contains_key (merge_disk_state mine theirs).cancelled_pairs k
        ≡ (contains_key mine.cancelled_pairs k || contains_key theirs.cancelled_pairs k)
  unfolding merge_disk_state drop_settled merge_maps
  merged_cancelled k =
      ap (λ (d : TrustDisk). contains_key d.cancelled_pairs k) merged_rest
      ∙ contains_key-extend theirs.cancelled_pairs mine.cancelled_pairs k

  pub merged_nonces :
      (k : Bytes)
      → get (merge_disk_state mine theirs).control_nonces k ≡ (
          if is_some (get mine.control_nonces k)
          then get mine.control_nonces k
          else get theirs.control_nonces k)
  unfolding merge_disk_state drop_settled merge_maps
  merged_nonces k =
      ap (λ (d : TrustDisk). get d.control_nonces k) merged_rest
      ∙ get-extend theirs.control_nonces mine.control_nonces k
