-- ===== src/Net/Framing/RoundTrip.antt =====
-- What is written to a stream is read from it (crates/abra-net/src/framing.rs).
use abra.Prelude.{
  ℕ, ◌%◌, ◌^◌, ◌≤◌, ◌<◌, ◌≡◌, refl, sym, ap, ◌∙◌, Bytes, false, ◌||◌, [], ◌∷◌, ◌++◌, length,
  length-append, take, drop, get_or, slice, ◌==◌, nat_eq, ltb, arith, ok,
}
use mathlib.Core.List.{append_assoc, append-nil}
use abra.Prelude.BigEndian.{
  to_be_bytes, from_be_bytes, length-to_be_bytes, from_be_bytes-to_be_bytes,
}
use abra.Cas.Slices.{take-append, drop-append, drop-drop}
use abra.Net.Framing.{
  write_frame, read_exact, read_frame, max_control_frame, ObjectKind, kind_byte, kind_of,
  ObjectHeader, encode_header, decode_header,
}

read_exact-append : (n : ℕ) (s t : Bytes) → length s ≡ n → read_exact n (s ++ t) ≡ ok (s, t)
unfolding read_exact
read_exact-append n s t h =
    let enough : ltb (length (s ++ t)) n ≡ false = ground (arith, length-append s t) in
    ground (arith, take-append n s t h, drop-append n s t h)

read_frame-parts :
    (s head tail : Bytes)
    → read_exact 4 s ≡ ok (head, tail)
    → (from_be_bytes head == 0 || ltb max_control_frame (from_be_bytes head)) ≡ false
    → read_frame s ≡ read_exact (from_be_bytes head) tail
unfolding read_frame
read_frame-parts s head tail first small = ground arith

-- A frame that is written is read back, and the stream stands behind it.
pub read_frame-write_frame :
    (bytes frame rest : Bytes)
    → write_frame bytes ≡ ok frame
    → read_frame (frame ++ rest) ≡ ok (bytes, rest)
unfolding write_frame
read_frame-write_frame bytes frame rest h =
    let n = length bytes in
    let small : (n == 0 || ltb max_control_frame n) ≡ false = ground arith in
    let head = to_be_bytes 4 (n % 2 ^ 32) in
    let frame_is : frame ≡ head ++ bytes = ground arith in
    let size : from_be_bytes head ≡ n =
      from_be_bytes-to_be_bytes 4 (n % 2 ^ 32) (omega arith) ∙ ground arith in
    ap (λ (f : Bytes). read_frame (f ++ rest)) frame_is
    ∙ ap read_frame (append_assoc head bytes rest)
    ∙ read_frame-parts (head ++ (bytes ++ rest)) head (bytes ++ rest)
        (read_exact-append 4 head (bytes ++ rest) (length-to_be_bytes 4 (n % 2 ^ 32)))
        (rw size small)
    ∙ ap (λ (k : ℕ). read_exact k (bytes ++ rest)) size
    ∙ read_exact-append n bytes rest refl

-- A header that `encode` can hold
pub record IsHeader (h : ObjectHeader) : Type 0 where
  pub digest : h.digest < 256 ^ 32
  pub total_size : h.total_size < 256 ^ 8
  pub offset : h.offset ≤ h.total_size

kind_of-kind_byte : (k : ObjectKind) → kind_of (kind_byte k) ≡ ok k
unfolding kind_of kind_byte
kind_of-kind_byte ObjectKind.blob = refl
kind_of-kind_byte ObjectKind.tree = refl

decode_header-fields :
    (h : ObjectHeader) (b : Bytes)
    → from_be_bytes (slice b 33 41) ≡ h.total_size
    → from_be_bytes (slice b 41 49) ≡ h.offset
    → from_be_bytes (slice b 1 33) ≡ h.digest
    → kind_of (get_or b 0 0) ≡ ok h.kind
    → h.offset ≤ h.total_size
    → decode_header b ≡ ok h
unfolding decode_header
decode_header-fields h b size offset digest kind order = ground arith

-- An object header whose offset is within its size is decoded from its 49 bytes.
pub decode_header-encode_header :
    (h : ObjectHeader)
    → IsHeader h
    → (length (encode_header h) ≡ 49) × (decode_header (encode_header h) ≡ ok h)
unfolding encode_header
decode_header-encode_header h v =
    let d = to_be_bytes 32 h.digest in
    let z = to_be_bytes 8 h.total_size in
    let o = to_be_bytes 8 h.offset in
    let dl = length-to_be_bytes 32 h.digest in
    let zl = length-to_be_bytes 8 h.total_size in
    let ol = length-to_be_bytes 8 h.offset in
    let body = d ++ (z ++ o) in
    let second = drop-append 32 d (z ++ o) dl in
    let third =
      sym (drop-drop 32 8 40 body (omega arith)) ∙ ap (drop 8) second ∙ drop-append 8 z o zl in
    let whole : take 8 o ≡ o = ap (take 8) (sym (append-nil o)) ∙ take-append 8 o [] ol in
    (
      omega (arith, dl, zl, ol, length-append d (z ++ o), length-append z o),
      decode_header-fields h (kind_byte h.kind ∷ body)
          (ap (λ (s : Bytes). from_be_bytes (take 8 s)) second
            ∙ ap from_be_bytes (take-append 8 z o zl)
            ∙ from_be_bytes-to_be_bytes 8 h.total_size v.total_size)
          (ap (λ (s : Bytes). from_be_bytes (take 8 s)) third
            ∙ ap from_be_bytes whole
            ∙ from_be_bytes-to_be_bytes 8 h.offset (omega (arith, v.offset, v.total_size)))
          (ap from_be_bytes (take-append 32 d (z ++ o) dl)
            ∙ from_be_bytes-to_be_bytes 32 h.digest v.digest)
          (kind_of-kind_byte h.kind) v.offset,
    )
