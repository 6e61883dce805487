-- ===== src/Net/Delivery/Fits.antt =====
-- What check_offer of an offer ensures (crates/abra-net/src/delivery.rs).
use abra.Crates.{Crates}
use abra.Prelude.{
  ℕ, ◌+◌, ◌%◌, ◌^◌, ◌≤◌, ◌≡◌, refl, true, not, Option, none, some, List, [], ◌∷◌, length, ◌==◌,
  nat_eq, bytes_eq, ltb, ok, >>=-eq-ok, >>-parts, refuse_if, arith,
}
use abra.Manifest.Schema.{RawManifest}
use abra.Capsule.LeaseRecord
use abra.Capsule.LeaseRecord.{LeaseRecord}
use abra.Net.Delivery.{
  Offer, max_lease_chain_len, same_id, check_link, check_chain, check_bundle, check_offer,
}

module _ ⦃c : Crates⦄ where
  -- Each lease of the chain follows the one before it: its epoch is the next, and it names its digest.
  abbrev pub IsContiguous : List LeaseRecord → Type 0
  IsContiguous [] = Unit
  IsContiguous (p ∷ []) = Unit
  IsContiguous (p ∷ (q ∷ rest)) =
      (q.epoch ≡ (p.epoch + 1) % 2 ^ 64)
      × (LeaseRecord.hash p ≡ ok q.prev_hash)
      × IsContiguous (q ∷ rest)

  check_link-parts :
      (p q : LeaseRecord)
      → check_link p q ≡ ok tt
      → (q.epoch ≡ (p.epoch + 1) % 2 ^ 64) × (LeaseRecord.hash p ≡ ok q.prev_hash)
  unfolding check_link
  check_link-parts p q h =
      let (next, rest) = >>-parts (refuse_if (not (q.epoch == (p.epoch + 1) % 2 ^ 64)) _) _ h in
      let (digest, hashed, same) = >>=-eq-ok (LeaseRecord.hash p) _ rest in
      (ground (arith, next), ground (arith, hashed, same))

  check_chain-IsContiguous :
      (list : List LeaseRecord) → check_chain list ≡ ok tt → IsContiguous list
  unfolding check_chain
  check_chain-IsContiguous [] h = tt
  check_chain-IsContiguous (p ∷ []) h = tt
  check_chain-IsContiguous (p ∷ (q ∷ rest)) h =
      let (link, more) = >>-parts (check_link p q) _ h in
      let (next, digest) = check_link-parts p q link in
      (next, digest, check_chain-IsContiguous (q ∷ rest) more)

  -- The offer fits its manifest.
  pub record Fits (o : Offer) (raw : RawManifest) : Type 0 where
    pub snapshot : raw.id ≡ o.snapshot_id
    pub capsule : o.capsule_id ≡ raw.manifest.capsule_id
    pub short : length o.lease_chain ≤ max_lease_chain_len
    pub chain : IsContiguous o.lease_chain
    pub bundle : check_bundle o raw.manifest.capsule_id ≡ ok tt

  same_id-eq : (a b : Option ℕ) → same_id a b ≡ true → a ≡ b
  same_id-eq none none h = refl
  same_id-eq none (some b) h = cc
  same_id-eq (some a) none h = cc
  same_id-eq (some a) (some b) h = ground arith

  pub check_offer-Fits : (o : Offer) (raw : RawManifest) → check_offer o raw ≡ ok tt → Fits o raw
  unfolding check_offer
  check_offer-Fits o raw h =
      let (h0, h1) = >>-parts (refuse_if (not (raw.id == o.snapshot_id)) _) _ h in
      let (h2, h3) = >>-parts (refuse_if (ltb max_lease_chain_len (length o.lease_chain)) _) _ h1 in
      let (h4, h5) = >>-parts (check_chain o.lease_chain) _ h3 in
      let (h6, h7) =
        >>-parts (refuse_if (not (same_id o.capsule_id raw.manifest.capsule_id)) _) _ h5 in
      record {
        snapshot = ground (arith, h0);
        capsule = same_id-eq o.capsule_id raw.manifest.capsule_id (ground (arith, h6));
        short = ground (arith, h2);
        chain = check_chain-IsContiguous o.lease_chain h4;
        bundle = h7;
      }
