-- ===== src/Examples/Frames.antt =====
-- A frame and an object header (crates/abra-net/src/framing.rs): the tests of the theorems on them.
use abra.Prelude.{◌≡◌, refl, Bytes, ascii, ◌∷◌, ◌++◌, length, arith, ok}
use abra.Prelude.BigEndian.{to_be_bytes}
use abra.Net.Framing.{
  write_frame, read_frame, ObjectKind, ObjectHeader, encode_header, decode_header,
}
use abra.Net.Framing.RoundTrip.{IsHeader, read_frame-write_frame, decode_header-encode_header}

abbrev ping : Bytes
ping = ascii "{}"

ping_frame : write_frame ping ≡ ok (0 ∷ (0 ∷ (0 ∷ (2 ∷ ping))))
unfolding write_frame to_be_bytes
ping_frame = refl

read_frame-write_frame_example :
    read_frame ((0 ∷ (0 ∷ (0 ∷ (2 ∷ ping)))) ++ ascii "next") ≡ ok (ping, ascii "next")
read_frame-write_frame_example =
    read_frame-write_frame ping (0 ∷ (0 ∷ (0 ∷ (2 ∷ ping)))) (ascii "next") ping_frame

abbrev header : ObjectHeader
header = record { kind = ObjectKind.tree; digest = 7; total_size = 4096; offset = 512 }

header-IsHeader : IsHeader header
header-IsHeader = record { digest = omega arith; total_size = omega arith; offset = omega arith }

decode_header-encode_header_example :
    (length (encode_header header) ≡ 49) × (decode_header (encode_header header) ≡ ok header)
decode_header-encode_header_example = decode_header-encode_header header header-IsHeader
