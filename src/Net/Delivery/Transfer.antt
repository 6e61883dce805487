-- ===== src/Net/Delivery/Transfer.antt =====
-- crates/abra-net/src/delivery.rs: how handle_plan receives the objects of an accepted offer. The
-- partial files of the offer and its staged store are maps here, by digest.
pub mod Staged
pub mod Append
pub mod Commit
pub mod Loop
pub mod Complete
use abra.Crates.{Crates}
use abra.Prelude.{
  ℕ, zero, suc, ◌+◌, ◌-◌, ◌^◌, ◌%◌, Bytes, Bool, true, false, not, ◌||◌, Option, none, some, List,
  [], ◌∷◌, ◌++◌, map, length, take, drop, retain, ◌==◌, nat_eq, bytes_eq, ltb, is_some_and, ascii,
  Result, ok, err, protocol, transport, ◌>>=◌, ◌>>◌, refuse_if, if◌then◌else◌,
}
use abra.Prelude.Map.{Map, get, contains_key}
use abra.Net.Sorted.{BTreeSet, nat_ord, insert, remove}
use abra.Net.Framing.{ObjectKind, ObjectHeader, decode_header}
use abra.Net.Delivery.Plan.{PlanObject, collect_plan, wanted_plan_object}

-- `blake3::Hasher`
pub record Hashers : Type 1 where
  pub Hasher : Type 0
  pub new : Hasher
  pub update : Hasher → Bytes → Hasher
  pub finalize : Hasher → ℕ

abbrev pub object_stream_chunk : ℕ
object_stream_chunk = 1048576

abbrev pub header_len : ℕ
header_len = 49

-- `u64::saturating_add`
abbrev pub saturating_add : ℕ → ℕ → ℕ
saturating_add a b = if ltb (a + b) (2 ^ 64) then a + b else 18446744073709551615

-- What stays the same while the objects arrive
pub record Wanted : Type 0 where
  pub objects : List PlanObject
  -- `have_set`
  pub have : BTreeSet ℕ

-- `.filter(|x| !have_set.contains(&x.digest))`
unfoldable pub wanted_objects : Wanted → List PlanObject
wanted_objects p = retain (λ (x : PlanObject). not (contains_key p.have x.digest)) p.objects

abbrev pub is_tree_kind : ObjectKind → Bool
is_tree_kind ObjectKind.tree = true
is_tree_kind ObjectKind.blob = false

-- `==` on Booleans
abbrev pub same_bool : Bool → Bool → Bool
same_bool true b = b
same_bool false b = not b

-- `unwrap_or(0)` of the file's length, where a file that is missing is the empty one
abbrev pub or_empty : Option Bytes → Bytes
or_empty none = []
or_empty (some bytes) = bytes

module _ ⦃c : Crates⦄ ⦃hs : Hashers⦄ where
  pub record Receiving : Type 0 where
    pub partials : Map ℕ Bytes
    pub staged : Map ℕ Bytes
    pub hashers : Map ℕ hs.Hasher
    pub completed : BTreeSet ℕ

  -- The content of a partial file
  unfoldable pub partial_of : Receiving → ℕ → Bytes
  partial_of s digest = or_empty (get s.partials digest)

  -- The loop that reads a partial file into its hasher. Each read takes a byte at least, so the file's
  -- length is enough fuel.
  unfoldable pub read_loop : ℕ → Bytes → hs.Hasher → hs.Hasher
  read_loop fuel [] h = h
  read_loop zero (x ∷ file) h = h
  read_loop (suc n) (x ∷ file) h =
      read_loop n (drop (object_stream_chunk - 1) file)
        (hs.update h (x ∷ take (object_stream_chunk - 1) file))

  unfoldable pub resume_hasher : Option Bytes → hs.Hasher
  resume_hasher none = hs.new
  resume_hasher (some file) = read_loop (length file) file hs.new

  -- The hashers of the wanted objects
  unfoldable pub resume_hashers : Map ℕ Bytes → List PlanObject → Map ℕ hs.Hasher
  resume_hashers partials [] = []
  resume_hashers partials (x ∷ objects) =
      insert (resume_hashers partials objects) x.digest (resume_hasher (get partials x.digest))

  unfoldable pub begin_receiving : Wanted → Map ℕ Bytes → Map ℕ Bytes → Receiving
  begin_receiving p partials staged = record {
    partials = partials;
    staged = staged;
    hashers = resume_hashers partials (wanted_objects p);
    completed = [];
  }

  -- The tests of a header
  unfoldable pub check_header : Wanted → ObjectHeader → Receiving → Result (Unit {0})
  check_header p h s = do
    wanted ← wanted_plan_object (collect_plan p.objects) p.have h.digest
    refuse_if (contains_key s.completed h.digest) (protocol "object stream for completed object")
    refuse_if
        (not (same_bool (is_tree_kind h.kind) (wanted.kind == ascii "tree"))
          || (not (h.total_size == wanted.bytes)
              || not (h.offset == length (partial_of s h.digest))))
        (protocol "object header mismatch")

  unfoldable pub append_partial : ObjectHeader → Bytes → Receiving → Result (Unit {0}) × Receiving
  append_partial h bytes s =
      let grown = partial_of s h.digest ++ bytes in
      if not (length (partial_of s h.digest) == h.offset)
      then (err (protocol "non-contiguous resume offset"), s)
      else if ltb h.total_size (saturating_add h.offset (length bytes))
      then (err (protocol "partial exceeds total size"), s)
      else (
        refuse_if (ltb h.total_size (length grown)) (protocol "partial exceeds total size"),
        record s { partials = insert s.partials h.digest grown },
      )

  unfoldable pub feed_found :
      Option hs.Hasher → ℕ → Bytes → Receiving → Result (Unit {0}) × Receiving
  feed_found none digest bytes s = (err (protocol "object stream for completed object"), s)
  feed_found (some hasher) digest bytes s =
      (ok tt, record s { hashers = insert s.hashers digest (hs.update hasher bytes) })

  unfoldable pub update_object_hasher : ℕ → Bytes → Receiving → Result (Unit {0}) × Receiving
  update_object_hasher digest bytes s = feed_found (get s.hashers digest) digest bytes s

  -- `BlobStore::commit_verified_file`: a staged file of the same length stays.
  unfoldable pub commit_verified_partial : ℕ → Receiving → Receiving
  commit_verified_partial digest s =
      let source = partial_of s digest in
      let kept = is_some_and (get s.staged digest) (λ old. length old == length source) in
      record s {
        partials = remove s.partials digest;
        staged = if kept then s.staged else insert s.staged digest source;
      }

  -- The end of an object: its hasher is removed and its digest compared.
  unfoldable pub settle_object : Option hs.Hasher → ℕ → Receiving → Result (Unit {0}) × Receiving
  settle_object none digest s = (err (protocol "object stream for completed object"), s)
  settle_object (some hasher) digest s =
      let taken = record s { hashers = remove s.hashers digest } in
      let done = commit_verified_partial digest taken in
      if hs.finalize hasher == digest
      then (ok tt, record done { completed = insert done.completed digest tt })
      else (
        err (protocol "object hash mismatch"),
        record taken { partials = remove taken.partials digest },
      )

  -- `?` between calls that change the state
  unfoldable pub and_then :
      Result (Unit {0}) × Receiving
      → (Receiving → Result (Unit {0}) × Receiving)
      → Result (Unit {0}) × Receiving
  and_then (err e, s) next = (err e, s)
  and_then (ok u, s) next = next s

  unfoldable pub finish_stream : ObjectHeader → Bytes → Receiving → Result (Unit {0}) × Receiving
  finish_stream h bytes s =
      if (h.offset + length bytes) % 2 ^ 64 == h.total_size
      then settle_object (get s.hashers h.digest) h.digest s
      else (ok tt, s)

  -- A stream with its header
  unfoldable pub receive_bytes :
      Wanted → Bytes → Result ObjectHeader → Receiving → Result (Unit {0}) × Receiving
  receive_bytes p bytes (err e) s = (err e, s)
  receive_bytes p bytes (ok h) s =
      and_then (check_header p h s, s)
        (λ s0.
          and_then (append_partial h bytes s0)
            (λ s1. and_then (update_object_hasher h.digest bytes s1) (finish_stream h bytes)))

  -- The body of the loop, for the stream that the connection accepts
  unfoldable pub receive_stream : Wanted → Bytes → Receiving → Result (Unit {0}) × Receiving
  receive_stream p stream s =
      if ltb (length stream) header_len
      then (err (protocol "short object header"), s)
      else receive_bytes p (drop header_len stream) (decode_header (take header_len stream)) s

  -- The loop. The streams are those that the connection gives before it fails.
  unfoldable pub receive_objects : Wanted → List Bytes → Receiving → Result (Unit {0}) × Receiving
  receive_objects p [] s =
      if ltb (length s.completed) (length (wanted_objects p))
      then (err (transport "connection closed"), s)
      else (ok tt, s)
  receive_objects p (stream ∷ streams) s =
      if ltb (length s.completed) (length (wanted_objects p))
      then and_then (receive_stream p stream s) (receive_objects p streams)
      else (ok tt, s)
