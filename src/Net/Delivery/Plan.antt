-- ===== src/Net/Delivery/Plan.antt =====
-- crates/abra-net/src/delivery.rs: the plan of an accepted offer, its checks in handle_plan and its
-- quota.
pub mod Required
use abra.Prelude.{
  ℕ, ◌+◌, ◌-◌, ◌*◌, ◌^◌, Bytes, Bool, true, false, not, ◌&&◌, ◌||◌, Option, none, some, List, [],
  ◌∷◌, any, retain, length, ◌==◌, nat_eq, bytes_eq, ltb, is_some_and, ascii, Result, ok, protocol,
  authorization, ◌>>=◌, ◌>>◌, refuse_if, ok_or, if◌then◌else◌,
}
use abra.Prelude.Map.{Map, get, contains_key}
use abra.Net.Sorted.{BTreeSet, nat_ord, insert}
use abra.Manifest.Schema.{NativeBlobRef, RawManifest}
use abra.Net.Delivery.{Offer}

abbrev pub max_object_size : ℕ
max_object_size = 268435456

abbrev pub max_native_object_size : ℕ
max_native_object_size = 8589934592

pub record PlanObject : Type 0 where
  pub digest : ℕ
  pub kind : Bytes
  pub bytes : ℕ

pub record Plan : Type 0 where
  pub message_type : Bytes
  pub offer_id : Bytes
  pub seq : ℕ
  pub eof : Bool
  pub objects : List PlanObject

-- `collect` into a map: a later object of the same digest replaces an earlier one.
unfoldable pub collect_plan : List PlanObject → Map ℕ PlanObject
collect_plan [] = []
collect_plan (x ∷ objects) =
    let rest = collect_plan objects in
    if contains_key rest x.digest then rest else insert rest x.digest x

abbrev pub or_nil {ℓ} : {A : Type ℓ} → Option (List A) → List A
or_nil none = []
or_nil (some list) = list

unfoldable pub collect_blobs : List NativeBlobRef → BTreeSet ℕ
collect_blobs [] = []
collect_blobs (x ∷ native) = insert (collect_blobs native) x.blob tt

unfoldable pub native_blobs : RawManifest → BTreeSet ℕ
native_blobs raw = collect_blobs (or_nil raw.manifest.native)

unfoldable pub collect_sizes : List NativeBlobRef → Map ℕ ℕ
collect_sizes [] = []
collect_sizes (x ∷ native) =
    let rest = collect_sizes native in
    if contains_key rest x.blob then rest else insert rest x.blob x.bytes

-- The limit of an object
unfoldable pub object_limit : BTreeSet ℕ → ℕ → ℕ
object_limit native digest =
    if contains_key native digest then max_native_object_size else max_object_size

unfoldable pub is_bad_object : BTreeSet ℕ → Map ℕ ℕ → PlanObject → Bool
is_bad_object native declared x =
    ltb (object_limit native x.digest) x.bytes
    || (not (x.kind == ascii "blob" || x.kind == ascii "tree")
        || ((contains_key native x.digest && not (x.kind == ascii "blob"))
            || is_some_and (get declared x.digest) (λ bytes. not (bytes == x.bytes))))

-- `try_fold` with `checked_add`
unfoldable pub sum_bytes : ℕ → List PlanObject → Option ℕ
sum_bytes sum [] = some sum
sum_bytes sum (x ∷ objects) =
    let rest = sum_bytes (sum + x.bytes) objects in
    if ltb (sum + x.bytes) (2 ^ 64) then rest else none

-- The planned bytes of a plan that fits the offer
unfoldable pub check_plan : Plan → Offer → RawManifest → Result ℕ
check_plan plan offer raw = do
  refuse_if
      (not (plan.offer_id == offer.offer_id)
        || (not plan.eof || not (length plan.objects == offer.object_count)))
      (protocol "plan mismatch")
  refuse_if
      (not (length (collect_plan plan.objects) == length plan.objects)
        || any (is_bad_object (native_blobs raw) (collect_sizes (or_nil raw.manifest.native)))
            plan.objects)
      (protocol "invalid plan")
  planned ← ok_or (sum_bytes 0 plan.objects) (protocol "plan byte count overflow")
  refuse_if (not (planned == offer.bytes_hint)) (protocol "plan quota mismatch")
  ok planned

-- `skipped_native_bytes`
unfoldable pub skipped_bytes : Bool → BTreeSet ℕ → List PlanObject → Option ℕ
skipped_bytes skip native objects =
    if skip
    then sum_bytes 0 (retain (λ (x : PlanObject). contains_key native x.digest) objects)
    else some 0

-- `required > budget || available.map_or(true, |free| free < required)`, where none is an I/O error
unfoldable pub exceeds_storage_quota : ℕ → ℕ → Option ℕ → Bool
exceeds_storage_quota required budget none = true
exceeds_storage_quota required budget (some free) = ltb budget required || ltb free required

-- The bytes that the receiver makes room for; it answers that the offer exceeds the quota otherwise.
unfoldable pub required_bytes : Plan → Offer → RawManifest → Bool → ℕ → Option ℕ → Result ℕ
required_bytes plan offer raw skip budget available = do
  planned ← check_plan plan offer raw
  skipped ←
      ok_or (skipped_bytes skip (native_blobs raw) plan.objects)
        (protocol "native byte count overflow")
  refuse_if (exceeds_storage_quota (planned - skipped) budget available)
      (authorization "offer exceeds quota")
  ok (planned - skipped)

unfoldable pub wanted_plan_object : Map ℕ PlanObject → BTreeSet ℕ → ℕ → Result PlanObject
wanted_plan_object allowed have digest = do
  refuse_if (contains_key have digest) (protocol "object not wanted")
  ok_or (get allowed digest) (protocol "object not wanted")
