-- ===== src/Examples/Transfers.antt =====
-- A plan of one object that comes in two streams (crates/abra-net/src/delivery.rs): the tests of the
-- theorems on its bytes and on the transfer.
use abra.Examples.Toy.{toy}
use abra.Prelude.{
  ℕ, ◌≡◌, ◌≤◌, ◌<◌, ◌^◌, refl, sym, ap, ◌∙◌, nat_eq, bytes_eq, list_beq, ascii, some, Bytes, List,
  [], ◌∷◌, ◌++◌, ok, true, false, retain, all,
}
use mathlib.Core.List.{append_assoc, append-nil}
use abra.Prelude.Map.{get, contains_key}
use abra.Prelude.BigEndian.{to_be_bytes, from_be_bytes}
use abra.Net.Sorted.{nat_ord, insert, remove}
use abra.Net.Framing.{ObjectKind, encode_header, decode_header, kind_byte, kind_of}
use abra.Net.Delivery.{Offer}
use abra.Net.Delivery.Plan.{
  PlanObject, Plan, collect_plan, native_blobs, collect_blobs, collect_sizes, object_limit,
  is_bad_object, sum_bytes, check_plan, skipped_bytes, exceeds_storage_quota, required_bytes,
  wanted_plan_object,
}
use abra.Net.Delivery.Plan.Required.{total_bytes, is_counted, is_within, required_bytes-Fit}
use abra.Net.Delivery.Transfer.{
  Hashers, Wanted, wanted_objects, partial_of, read_loop, resume_hasher, resume_hashers,
  begin_receiving, check_header, append_partial, feed_found, update_object_hasher,
  commit_verified_partial, settle_object, and_then, finish_stream, receive_bytes, receive_stream,
  receive_objects,
}
use abra.Net.Delivery.Transfer.Staged.{concat, absorb, IsStaged}
use abra.Net.Delivery.Transfer.Complete.{receive_objects-IsStaged}
use abra.Manifest.Schema.{RawManifest}
use abra.Examples.Manifests.{workspace}
use abra.Examples.Offers.{offer}

-- A hasher that keeps its input
instance abbrev plain_hashers : Hashers
plain_hashers = record {
  Hasher = Bytes;
  new = [];
  update = λ h bytes. h ++ bytes;
  finalize = toy.blake3;
}

absorb-concat : (h : Bytes) (chunks : List Bytes) → absorb h chunks ≡ h ++ concat chunks
absorb-concat h [] = sym (append-nil h)
absorb-concat h (x ∷ chunks) = absorb-concat (h ++ x) chunks ∙ append_assoc h x (concat chunks)

abbrev object : PlanObject
object = record { digest = toy.blake3 (ascii "hi"); kind = ascii "blob"; bytes = 2 }

abbrev raw : RawManifest
raw = record { bytes = []; manifest = workspace; id = 77 }

abbrev plan : Plan
plan = record {
  message_type = ascii "plan";
  offer_id = ascii "o";
  seq = 0;
  eof = true;
  objects = object ∷ [];
}

abbrev small : Offer
small = record offer { bytes_hint = 2; object_count = 1 }

fits : required_bytes plan small raw false 100 (some 50) ≡ ok 2
unfolding required_bytes check_plan skipped_bytes exceeds_storage_quota sum_bytes is_bad_object
    object_limit native_blobs collect_blobs collect_sizes collect_plan get contains_key insert
    list_beq
fits = refl

required_bytes-Fit_example :
    (2 ≡ total_bytes (retain (is_counted false (native_blobs raw)) plan.objects))
    × (total_bytes plan.objects ≡ small.bytes_hint)
    × (total_bytes plan.objects < 2 ^ 64)
    × (all (is_within (native_blobs raw)) plan.objects ≡ true)
    × (2 ≤ 100)
    × (free : ℕ) × (some 50 ≡ some free)
    × (2 ≤ free)
required_bytes-Fit_example = required_bytes-Fit plan small raw false 100 (some 50) 2 fits

abbrev wants : Wanted
wants = record { objects = plan.objects; have = [] }

abbrev header : ℕ → Bytes
unfolding encode_header kind_byte to_be_bytes
header offset =
    encode_header
      (record { kind = ObjectKind.blob; digest = object.digest; total_size = 2; offset = offset })

abbrev streams : List Bytes
streams = (header 0 ++ ascii "h") ∷ ((header 1 ++ ascii "i") ∷ [])

arrives : (receive_objects wants streams (begin_receiving wants [] [])).0 ≡ ok tt
unfolding receive_objects receive_stream receive_bytes finish_stream and_then settle_object
    commit_verified_partial update_object_hasher feed_found append_partial check_header
    begin_receiving resume_hashers resume_hasher read_loop partial_of wanted_objects
    wanted_plan_object collect_plan get contains_key insert remove encode_header decode_header
    kind_byte kind_of to_be_bytes from_be_bytes list_beq
arrives = refl

receive_objects-IsStaged_example :
    IsStaged wants
      (receive_objects wants streams (begin_receiving wants [] [])).1.staged
      object.digest
unfolding wanted_objects contains_key get
receive_objects-IsStaged_example =
    receive_objects-IsStaged wants [] [] streams object.digest
      (λ chunks. ap toy.blake3 (absorb-concat [] chunks)) (λ digest bytes found. cc) arrives refl
