-- ===== src/Examples/Trees.antt =====
-- A directory with a file and a directory (crates/abra-core/src/cas.rs): the tests of the theorems
-- on trees.
use abra.Prelude.{◌≡◌, refl, Bytes, ascii, true, false, [], ◌∷◌, arith, ok, list_beq}
use abra.Prelude.BigEndian.{are_bytes, to_be_bytes}
use abra.Cas.Utf8.{is_utf8}
use abra.Cas.Tree.{
  EntryMode, TreeEntry, Tree, check_name, bytes_lt, encode, encode_entries, encode_entry, as_str,
  decode, insert_entry, sort_entries, has_duplicate, check_names, new_tree,
}
use abra.Cas.Order.{increasing}
use abra.Cas.Codec.{IsTree, IsEntry}
use abra.Cas.RoundTrip.{decode-encode}
use abra.Cas.Decoded.{encode-decode}
use abra.Cas.Fuel.{is_panic, decode-is_panic}

abbrev readme : TreeEntry
readme = record { name = ascii "README.md"; mode = EntryMode.file; hash = 77; size = 12 }

abbrev sources : TreeEntry
sources = record { name = ascii "src"; mode = EntryMode.tree; hash = 78; size = 0 }

abbrev pub folder : Tree
folder = record { entries = readme ∷ (sources ∷ []) }

readme-IsEntry : IsEntry readme
unfolding check_name is_utf8 list_beq
readme-IsEntry = record {
  named = refl;
  text = refl;
  hash = omega arith;
  size = omega arith;
  no_size = refl;
}

sources-IsEntry : IsEntry sources
unfolding check_name is_utf8 list_beq
sources-IsEntry = record {
  named = refl;
  text = refl;
  hash = omega arith;
  size = omega arith;
  no_size = refl;
}

pub folder-IsTree : IsTree folder
unfolding increasing bytes_lt
folder-IsTree = record { entries = (readme-IsEntry, (sources-IsEntry, tt)); sorted = refl }

abbrev encoded : Bytes
encoded = encode folder

encoded-are_bytes : are_bytes encoded ≡ true
unfolding encode encode_entries encode_entry as_str to_be_bytes
encoded-are_bytes = refl

decode-encode_example : decode encoded ≡ ok folder
decode-encode_example = decode-encode folder folder-IsTree

encode-decode_example : (encode folder ≡ encoded) × IsTree folder
encode-decode_example =
    encode-decode encoded folder encoded-are_bytes (decode-encode folder folder-IsTree)

decode-is_panic_example : is_panic (decode (ascii "abra.tree.v1\nfile x")) ≡ false
decode-is_panic_example = decode-is_panic (ascii "abra.tree.v1\nfile x")

sorted_on_input : new_tree (sources ∷ (readme ∷ [])) ≡ ok folder
unfolding new_tree check_names check_name sort_entries insert_entry has_duplicate list_beq
sorted_on_input = refl
