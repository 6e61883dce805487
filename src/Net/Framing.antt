-- ===== src/Net/Framing.antt =====
-- crates/abra-net/src/framing.rs: control frames and object headers on byte streams. The JSON of a
-- control frame is bytes here.
pub mod RoundTrip
use abra.Prelude.{
  ℕ, ◌+◌, ◌*◌, ◌%◌, ◌^◌, Bytes, Bool, ◌||◌, Option, none, some, List, [], ◌∷◌, ◌++◌, length, get_or,
  take, drop, slice, ◌==◌, nat_eq, ltb, Result, ok, err, protocol, bare_io, ◌>>=◌, ◌>>◌, refuse_if,
  if◌then◌else◌,
}
use abra.Prelude.BigEndian.{to_be_bytes, from_be_bytes}

abbrev pub max_control_frame : ℕ
max_control_frame = 16777216

-- `write_frame`, after the encoding of its value
unfoldable pub write_frame : Bytes → Result Bytes
write_frame bytes = do
  refuse_if (length bytes == 0 || ltb max_control_frame (length bytes))
      (protocol "control frame length outside 1..=16 MiB")
  ok (to_be_bytes 4 (length bytes % 2 ^ 32) ++ bytes)

-- `read_exact` of some bytes from a stream; a stream that ends before is an error.
unfoldable pub read_exact : ℕ → Bytes → Result (Bytes × Bytes)
read_exact n s =
    if ltb (length s) n
    then err (bare_io "failed to fill whole buffer")
    else ok (take n s, drop n s)

-- `read_frame`, before the decoding of its value, with the rest of the stream
unfoldable pub read_frame : Bytes → Result (Bytes × Bytes)
read_frame s = do
  head ← read_exact 4 s
  let len = from_be_bytes head.0
  refuse_if (len == 0 || ltb max_control_frame len)
      (protocol "control frame length outside 1..=16 MiB")
  read_exact len head.1

pub data ObjectKind : Type 0 where
  blob tree : ObjectKind

-- `kind as u8` and `TryFrom<u8>`
unfoldable pub kind_byte : ObjectKind → ℕ
kind_byte ObjectKind.blob = 1
kind_byte ObjectKind.tree = 2

unfoldable pub kind_of : ℕ → Result ObjectKind
kind_of value =
    if value == 1
    then ok ObjectKind.blob
    else if value == 2
    then ok ObjectKind.tree
    else err (protocol "unknown object kind")

pub record ObjectHeader : Type 0 where
  pub kind : ObjectKind
  pub digest : ℕ
  pub total_size : ℕ
  pub offset : ℕ

unfoldable pub encode_header : ObjectHeader → Bytes
encode_header h =
    kind_byte h.kind
    ∷ (to_be_bytes 32 h.digest ++ (to_be_bytes 8 h.total_size ++ to_be_bytes 8 h.offset))

-- For 49 bytes.
unfoldable pub decode_header : Bytes → Result ObjectHeader
decode_header bytes = do
  let total_size = from_be_bytes (slice bytes 33 41)
  let offset = from_be_bytes (slice bytes 41 49)
  refuse_if (ltb total_size offset) (protocol "object offset exceeds size")
  kind ← kind_of (get_or bytes 0 0)
  ok (record {
    kind = kind;
    digest = from_be_bytes (slice bytes 1 33);
    total_size = total_size;
    offset = offset;
  })
