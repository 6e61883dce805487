-- ===== src/Net/Delivery/Plan/Required.antt =====
-- The bytes of a plan (crates/abra-net/src/delivery.rs).
use abra.Prelude.{
  ℕ, ◌+◌, ◌-◌, ◌^◌, ◌≤◌, ◌<◌, ◌≡◌, refl, Bool, true, false, not, ◌&&◌, ◌||◌, Option, none, some,
  List, [], ◌∷◌, any, all, retain, length, ◌==◌, nat_eq, bytes_eq, leb, ok, >>=-eq-ok, >>-parts,
  refuse_if, ok_or, arith,
}
use abra.Prelude.Map.{contains_key}
use abra.Net.Sorted.{BTreeSet}
use abra.Manifest.Schema.{RawManifest}
use abra.Net.Delivery.{Offer}
use abra.Net.Delivery.Plan.{
  PlanObject, Plan, collect_plan, or_nil, native_blobs, collect_sizes, object_limit, is_bad_object,
  sum_bytes, check_plan, skipped_bytes, exceeds_storage_quota, required_bytes,
}

-- The bytes of some objects, on numbers without a bound
abbrev pub total_bytes : List PlanObject → ℕ
total_bytes [] = 0
total_bytes (x ∷ objects) = x.bytes + total_bytes objects

-- The objects whose bytes are counted: all but the native ones, where those are skipped. An object
-- that the receiver has already is counted too.
abbrev pub is_counted : Bool → BTreeSet ℕ → PlanObject → Bool
is_counted skip native x = not (skip && contains_key native x.digest)

sum_bytes-total_bytes :
    (sum total : ℕ) (objects : List PlanObject)
    → sum_bytes sum objects ≡ some total
    → total ≡ sum + total_bytes objects
unfolding sum_bytes
sum_bytes-total_bytes sum total [] h = ground arith
sum_bytes-total_bytes sum total (x ∷ objects) h =
    ground (arith, sum_bytes-total_bytes (sum + x.bytes) total objects)

sum_bytes-bound :
    (sum total : ℕ) (objects : List PlanObject)
    → sum < 2 ^ 64
    → sum_bytes sum objects ≡ some total
    → total < 2 ^ 64
unfolding sum_bytes
sum_bytes-bound sum total [] small h = ground arith
sum_bytes-bound sum total (x ∷ objects) small h =
    ground (arith, sum_bytes-bound (sum + x.bytes) total objects)

total_bytes-split :
    (native : BTreeSet ℕ) (objects : List PlanObject)
    → total_bytes objects
      ≡ total_bytes (retain (λ (x : PlanObject). contains_key native x.digest) objects)
        + total_bytes (retain (is_counted true native) objects)
total_bytes-split native [] = refl
total_bytes-split native (x ∷ objects) = ground (arith, total_bytes-split native objects)

total_bytes-all :
    (native : BTreeSet ℕ) (objects : List PlanObject)
    → total_bytes (retain (is_counted false native) objects) ≡ total_bytes objects
total_bytes-all native [] = refl
total_bytes-all native (x ∷ objects) = ground (arith, total_bytes-all native objects)

skipped_bytes-total_bytes :
    (skip : Bool) (native : BTreeSet ℕ) (objects : List PlanObject) (skipped : ℕ)
    → skipped_bytes skip native objects ≡ some skipped
    → total_bytes objects - skipped ≡ total_bytes (retain (is_counted skip native) objects)
unfolding skipped_bytes
skipped_bytes-total_bytes true native objects skipped h =
    let skips =
      sum_bytes-total_bytes 0 skipped
        (retain (λ (x : PlanObject). contains_key native x.digest) objects) h in
    ground (arith, skips, total_bytes-split native objects)
skipped_bytes-total_bytes false native objects skipped h =
    ground (arith, h, total_bytes-all native objects)

-- At most 256 MiB, or 8 GiB for a native object
abbrev pub is_within : BTreeSet ℕ → PlanObject → Bool
is_within native x =
    leb x.bytes 268435456 || (contains_key native x.digest && leb x.bytes 8589934592)

-- Every object of a plan is within its limit.
is_bad_object-limit :
    (raw : RawManifest) (objects : List PlanObject)
    → any (is_bad_object (native_blobs raw) (collect_sizes (or_nil raw.manifest.native))) objects
      ≡ false
    → all (is_within (native_blobs raw)) objects ≡ true
unfolding is_bad_object object_limit
is_bad_object-limit raw [] h = refl
is_bad_object-limit raw (x ∷ objects) h = ground (arith, is_bad_object-limit raw objects)

exceeds_storage_quota-bounds :
    (required budget : ℕ) (available : Option ℕ)
    → exceeds_storage_quota required budget available ≡ false
    → (required ≤ budget) × (free : ℕ) × (available ≡ some free) × (required ≤ free)
unfolding exceeds_storage_quota
exceeds_storage_quota-bounds required budget none h = cc
exceeds_storage_quota-bounds required budget (some free) h =
    (ground (arith, h), free, refl, ground (arith, h))

-- A plan that the receiver goes on with: the bytes it makes room for are those of all planned objects
-- but the native ones that it skips, counted without overflow; the whole plan has the bytes that the
-- offer promised, fewer than 2^64; no object has more than 256 MiB, or 8 GiB if it is native; and the
-- bytes fit the budget and the free space, which could be read.
pub required_bytes-Fit :
    (plan : Plan) (offer : Offer) (raw : RawManifest) (skip : Bool) (budget : ℕ)
    (available : Option ℕ) (required : ℕ)
    → required_bytes plan offer raw skip budget available ≡ ok required
    → (required ≡ total_bytes (retain (is_counted skip (native_blobs raw)) plan.objects))
      × (total_bytes plan.objects ≡ offer.bytes_hint)
      × (total_bytes plan.objects < 2 ^ 64)
      × (all (is_within (native_blobs raw)) plan.objects ≡ true)
      × (required ≤ budget)
      × (free : ℕ) × (available ≡ some free)
      × (required ≤ free)
unfolding required_bytes check_plan
required_bytes-Fit plan offer raw skip budget available required h =
    let (planned, checked, h0) = >>=-eq-ok (check_plan plan offer raw) _ h in
    let (skipped, skips, h1) =
      >>=-eq-ok (ok_or (skipped_bytes skip (native_blobs raw) plan.objects) _) _ h0 in
    let (h2, h3) =
      >>-parts (refuse_if (exceeds_storage_quota (planned - skipped) budget available) _) _ h1 in
    let (h4, h5) =
      >>-parts
        (refuse_if
          (not (plan.offer_id == offer.offer_id)
            || (not plan.eof || not (length plan.objects == offer.object_count)))
          _)
        _ checked in
    let (h6, h7) =
      >>-parts
        (refuse_if
          (not (length (collect_plan plan.objects) == length plan.objects)
            || any (is_bad_object (native_blobs raw) (collect_sizes (or_nil raw.manifest.native)))
                plan.objects)
          _)
        _ h5 in
    let (sum, summed, h8) = >>=-eq-ok (ok_or (sum_bytes 0 plan.objects) _) _ h7 in
    let total = sum_bytes-total_bytes 0 sum plan.objects (ground (arith, summed)) in
    let bound = sum_bytes-bound 0 sum plan.objects (omega arith) (ground (arith, summed)) in
    let taken =
      skipped_bytes-total_bytes skip (native_blobs raw) plan.objects skipped
        (ground (arith, skips)) in
    let limits = is_bad_object-limit raw plan.objects (ground (arith, h6)) in
    let (within, free, read, fits) =
      exceeds_storage_quota-bounds (planned - skipped) budget available (ground (arith, h2)) in
    let same : required ≡ planned - skipped = ground (arith, h3) in
    let promised : (planned ≡ sum) × (sum ≡ offer.bytes_hint) = ground (arith, h8) in
    (
      ground (arith, same, taken, total, promised),
      ground (arith, total, promised),
      ground (arith, total, bound),
      limits,
      ground (arith, same, within),
      free,
      read,
      ground (arith, same, fits),
    )
