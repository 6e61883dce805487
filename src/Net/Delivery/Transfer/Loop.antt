-- ===== src/Net/Delivery/Transfer/Loop.antt =====
-- The loop over the streams (crates/abra-net/src/delivery.rs).
use abra.Crates.{Crates}
use abra.Prelude.{
  ◌+◌, ◌^◌, ◌%◌, ◌≤◌, ◌≡◌, refl, Bytes, Option, none, some, List, [], ◌∷◌, length, take, drop, ◌==◌,
  nat_eq, bytes_eq, ltb, Result, ok, err, protocol, transport, arith,
}
use abra.Prelude.Map.{get}
use abra.Net.Sorted
use abra.Net.Sorted.{nat_ord}
use abra.Net.Framing.{ObjectHeader, decode_header}
use abra.Net.Delivery.Transfer.{
  Hashers, Wanted, header_len, Receiving, partial_of, check_header, append_partial,
  update_object_hasher, commit_verified_partial, settle_object, and_then, finish_stream,
  receive_bytes, receive_stream, receive_objects, wanted_objects,
}
use abra.Net.Delivery.Transfer.Staged.{
  IsIncremental, IsReceiving, IsOpen, IsGrown, After, and_then-After, if-After,
}
use abra.Net.Delivery.Transfer.Append.{
  IsBehind, check_header-IsOpen, append_partial-IsGrown, update-IsReceiving,
}
use abra.Net.Delivery.Transfer.Commit.{digest-same, settled-IsReceiving}

module _ ⦃c : Crates⦄ ⦃hs : Hashers⦄ where
  -- The end of an object, whose hasher is the one at its digest
  settle_object-IsReceiving :
      (p : Wanted) (h : ObjectHeader) (s : Receiving) (found : Option hs.Hasher)
      → IsIncremental
      → get s.hashers h.digest ≡ found
      → IsReceiving p s
      → IsOpen p h s
      → length (partial_of s h.digest) ≡ h.total_size
      → After (IsReceiving p) (settle_object found h.digest s)
  unfolding settle_object commit_verified_partial partial_of
  settle_object-IsReceiving p h s none inc was now o full = now.verified
  settle_object-IsReceiving p h s (some hasher) inc was now o full =
      let taken : Receiving = record s { hashers = Sorted.remove s.hashers h.digest } in
      let done = commit_verified_partial h.digest taken in
      if-After (IsReceiving p) (hs.finalize hasher == h.digest)
        (ok tt, record done { completed = Sorted.insert done.completed h.digest tt })
        (
          err (protocol "object hash mismatch"),
          record taken { partials = Sorted.remove taken.partials h.digest },
        )
        (λ same.
          settled-IsReceiving p h s
            (digest-same h s hasher inc (now.hashed h.digest hasher was) (ground (arith, same))) now
            o full)
        (λ other. now.verified)

  finish_stream-IsReceiving :
      (p : Wanted) (h : ObjectHeader) (bytes : Bytes) (s : Receiving)
      → IsIncremental
      → IsReceiving p s × IsOpen p h s × IsGrown h bytes s
      → After (IsReceiving p) (finish_stream h bytes s)
  unfolding finish_stream
  finish_stream-IsReceiving p h bytes s inc (now, o, g) =
      if-After (IsReceiving p) ((h.offset + length bytes) % 2 ^ 64 == h.total_size)
        (settle_object (get s.hashers h.digest) h.digest s) (ok tt, s)
        (λ last.
          settle_object-IsReceiving p h s (get s.hashers h.digest) inc refl now o
            (ground (arith, last, g.end, g.within)))
        (λ _. now)

  receive_bytes-IsReceiving :
      (p : Wanted) (bytes : Bytes) (read : Result ObjectHeader) (s : Receiving)
      → IsIncremental
      → IsReceiving p s
      → After (IsReceiving p) (receive_bytes p bytes read s)
  unfolding receive_bytes update_object_hasher
  receive_bytes-IsReceiving p bytes (err e) s inc now = now.verified
  receive_bytes-IsReceiving p bytes (ok h) s inc now =
      let Q0 = λ (s0 : Receiving). IsReceiving p s0 × IsOpen p h s0 in
      let Q1 =
        λ (s1 : Receiving). IsBehind p h.digest bytes s1 × IsOpen p h s1 × IsGrown h bytes s1 in
      let Q2 = λ (s2 : Receiving). IsReceiving p s2 × IsOpen p h s2 × IsGrown h bytes s2 in
      let update = update_object_hasher h.digest bytes in
      let finish = finish_stream h bytes in
      and_then-After Q0 (IsReceiving p) (check_header p h s, s)
        (λ s0. and_then (append_partial h bytes s0) (λ s1. and_then (update s1) finish))
        (check_header-IsOpen p h s (check_header p h s) now refl)
        (λ s0 (now0, o).
          and_then-After Q1 (IsReceiving p) (append_partial h bytes s0)
            (λ s1. and_then (update s1) finish) (append_partial-IsGrown p h bytes s0 now0 o)
            (λ s1 (behind, o1, g).
              and_then-After Q2 (IsReceiving p) (update s1) finish
                (update-IsReceiving p h bytes s1 (get s1.hashers h.digest) refl behind o1 g)
                (λ s2 q. finish_stream-IsReceiving p h bytes s2 inc q)))

  receive_stream-IsReceiving :
      (p : Wanted) (stream : Bytes) (s : Receiving)
      → IsIncremental
      → IsReceiving p s
      → After (IsReceiving p) (receive_stream p stream s)
  unfolding receive_stream
  receive_stream-IsReceiving p stream s inc now =
      let read = decode_header (take header_len stream) in
      if-After (IsReceiving p) (ltb (length stream) header_len)
        (err (protocol "short object header"), s) (receive_bytes p (drop header_len stream) read s)
        (λ _. now.verified)
        (λ _. receive_bytes-IsReceiving p (drop header_len stream) read s inc now)

  -- When the loop ends, every completed object is staged and no wanted object is missing.
  abbrev pub IsDone : Wanted → Receiving → Type 0
  IsDone p s = IsReceiving p s × (length (wanted_objects p) ≤ length s.completed)

  pub receive_objects-IsDone :
      (p : Wanted) (streams : List Bytes) (s : Receiving)
      → IsIncremental
      → IsReceiving p s
      → After (IsDone p) (receive_objects p streams s)
  unfolding receive_objects
  receive_objects-IsDone p [] s inc now =
      if-After (IsDone p) (ltb (length s.completed) (length (wanted_objects p)))
        (err (transport "connection closed"), s) (ok tt, s) (λ _. now.verified)
        (λ enough. (now, ground (arith, enough)))
  receive_objects-IsDone p (stream ∷ streams) s inc now =
      if-After (IsDone p) (ltb (length s.completed) (length (wanted_objects p)))
        (and_then (receive_stream p stream s) (receive_objects p streams)) (ok tt, s)
        (λ _.
          and_then-After (IsReceiving p) (IsDone p) (receive_stream p stream s)
            (receive_objects p streams) (receive_stream-IsReceiving p stream s inc now)
            (λ s' now'. receive_objects-IsDone p streams s' inc now'))
        (λ enough. (now, ground (arith, enough)))
