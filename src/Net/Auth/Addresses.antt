-- ===== src/Net/Auth/Addresses.antt =====
-- `update_addresses` of crates/abra-net/src/auth.rs: the dial hints of a peer.
use abra.Prelude.{
  ℕ, Bytes, not, Option, none, some, List, [], ◌∷◌, ◌++◌, any, take, retain, ◌==◌, nat_eq, bytes_eq,
  Result, ok, ◌>>=◌, ◌>>◌, if◌then◌else◌,
}
use abra.Prelude.Map.{get}
use abra.Net.Sorted.{insert, nat_ord}
use abra.Net.Auth.Trust.{TrustedPeer, TrustStore}
use abra.Net.Auth.Pairs.{Hints, commit}

module _ ⦃hints : Hints⦄ where
  abbrev combine_with :
      Bytes → Bytes → List Bytes → Option Bytes → Option (List Bytes) → Option (List Bytes)
  combine_with known address rest (some combined) later = some (combined ∷ rest)
  combine_with known address rest none (some list) = some (known ∷ list)
  combine_with known address rest none none = none

  -- `find_map` with the index, and `merged[index] = combined`: the first hint that merges
  unfoldable pub merge_hint : Bytes → List Bytes → Option (List Bytes)
  merge_hint address [] = none
  merge_hint address (known ∷ rest) =
      combine_with known address rest (hints.merge_peer_address_hints known address)
        (merge_hint address rest)

  abbrev or_push : Bytes → List Bytes → Option (List Bytes) → List Bytes
  or_push address merged (some list) = list
  or_push address merged none =
      if any (λ known. known == address) merged then merged else merged ++ (address ∷ [])

  -- The loop over the addresses
  unfoldable pub merge_hints : List Bytes → List Bytes → Result (List Bytes)
  unfolding merge_hint
  merge_hints [] merged = ok merged
  merge_hints (address ∷ list) merged = do
    hints.validate_peer_address address
    merge_hints list (or_push address merged (merge_hint address merged))

  -- The stable sort by `!peer_address_has_direct_hint`
  unfoldable pub direct_first : List Bytes → List Bytes
  direct_first list =
      retain hints.peer_address_has_direct_hint list
      ++ retain (λ a. not (hints.peer_address_has_direct_hint a)) list

  unfoldable pub updated_addresses : List Bytes → List Bytes → Result (List Bytes)
  updated_addresses addresses known = do
    merged ← merge_hints addresses known
    ok (take 8 (direct_first merged))

  unfoldable pub update_found :
      ℕ → List Bytes → ℕ → Option TrustedPeer → TrustStore → Result (Unit {0}) × TrustStore
  update_found peer addresses clock none s = (ok tt, s)
  update_found peer addresses clock (some trusted) s = commit clock s (do
    merged ← updated_addresses addresses trusted.addresses
    let t = record trusted { addresses = merged }
    ok (tt, record s.disk { peers = insert s.disk.peers peer t }))

  unfoldable pub update_addresses : ℕ → List Bytes → ℕ → TrustStore → Result (Unit {0}) × TrustStore
  update_addresses peer [] clock s = (ok tt, s)
  update_addresses peer (a ∷ addresses) clock s =
      update_found peer (a ∷ addresses) clock (get s.disk.peers peer) s
