-- ===== src/Cas/Codec.antt =====
-- The encoding of trees (crates/abra-core/src/cas.rs) and its inverse.
use abra.Prelude.{
  ◌<◌, ◌^◌, ◌≡◌, refl, sym, ap, ◌∙◌, Bytes, ascii, true, false, not, ◌&&◌, ◌||◌, some, List, [],
  ◌∷◌, ◌++◌, any, length, length-append, take, drop, ◌==◌, nat_eq, bytes_eq, list_beq, list_beq_iff,
  ltb, arith, ok,
}
use mathlib.Core.List.{append_assoc}
use abra.Prelude.BigEndian.{
  to_be_bytes, from_be_bytes, length-to_be_bytes, from_be_bytes-to_be_bytes,
}
use abra.Cas.Utf8.{is_utf8}
use abra.Cas.Tree.{
  EntryMode, as_str, from_bytes, is_tree, TreeEntry, Tree, check_name, encode_entry, split_at,
  decode_fixed, decode_entry, names,
}
use abra.Cas.Order.{increasing}
use abra.Cas.Slices.{has, split_at-append, take-append, drop-append, drop-drop}

-- An entry that has an encoding.
pub record IsEntry (e : TreeEntry) : Type 0 where
  pub named : check_name e.name ≡ ok tt
  pub text : is_utf8 e.name ≡ true
  pub hash : e.hash < 256 ^ 32
  pub size : e.size < 256 ^ 8
  pub no_size : (is_tree e.mode && not (e.size == 0)) ≡ false

abbrev pub AreEntries : List TreeEntry → Type 0
AreEntries [] = Unit {0}
AreEntries (e ∷ es) = IsEntry e × AreEntries es

-- A tree that has an encoding: its entries are sorted by name, without duplicates, their names are
-- valid UTF-8, and a directory has size 0. `Tree::new` ensures all of this but the last.
pub record IsTree (t : Tree) : Type 0 where
  pub entries : AreEntries t.entries
  pub sorted : increasing (names t.entries) ≡ true

separators-has_nul :
    (name : Bytes)
    → any (λ b. b == b'/' || (b == b'\\' || b == 0)) name ≡ false
    → has 0 name ≡ false
separators-has_nul [] h = refl
separators-has_nul (b ∷ name) h = ground (arith, separators-has_nul name)

pub check_name-has_nul : (name : Bytes) → check_name name ≡ ok tt → has 0 name ≡ false
unfolding check_name
check_name-has_nul name h = ground (arith, separators-has_nul name)

as_str-has_space : (m : EntryMode) → has b' ' (as_str m) ≡ false
unfolding as_str
as_str-has_space EntryMode.file = refl
as_str-has_space EntryMode.exec = refl
as_str-has_space EntryMode.link = refl
as_str-has_space EntryMode.tree = refl

from_bytes-as_str : (m : EntryMode) → from_bytes (as_str m) ≡ ok m
unfolding from_bytes as_str list_beq
from_bytes-as_str EntryMode.file = refl
from_bytes-as_str EntryMode.exec = refl
from_bytes-as_str EntryMode.link = refl
from_bytes-as_str EntryMode.tree = refl

pub as_str-from_bytes : (s : Bytes) (m : EntryMode) → from_bytes s ≡ ok m → as_str m ≡ s
unfolding from_bytes as_str
as_str-from_bytes s m h = ground (
  arith,
  list_beq_iff s (ascii "file"),
  list_beq_iff s (ascii "exec"),
  list_beq_iff s (ascii "link"),
  list_beq_iff s (ascii "tree"),
)

pub entry_shape :
    (e : TreeEntry) (s : Bytes)
    → encode_entry e ++ s
      ≡ as_str e.mode
        ++ (b' ' ∷ (e.name ++ (0 ∷ (to_be_bytes 32 e.hash ++ (to_be_bytes 8 e.size ++ s)))))
unfolding encode_entry
entry_shape e s =
    let fixed = to_be_bytes 32 e.hash ++ to_be_bytes 8 e.size in
    append_assoc (as_str e.mode) (b' ' ∷ (e.name ++ (0 ∷ fixed))) s
    ∙ ap (λ (t : Bytes). as_str e.mode ++ (b' ' ∷ t))
        (append_assoc e.name (0 ∷ fixed) s
          ∙ ap (λ (t : Bytes). e.name ++ (0 ∷ t))
              (append_assoc (to_be_bytes 32 e.hash) (to_be_bytes 8 e.size) s))

decode_fixed-ok :
    (e : TreeEntry) (w s : Bytes)
    → ltb (length w) 40 ≡ false
    → from_be_bytes (take 32 w) ≡ e.hash
    → from_be_bytes (take 8 (drop 32 w)) ≡ e.size
    → drop 40 w ≡ s
    → (is_tree e.mode && not (e.size == 0)) ≡ false
    → decode_fixed e.mode e.name w ≡ ok (e, s)
unfolding decode_fixed
decode_fixed-ok e w s enough hash size rest no_size = ground arith

decode_fixed-fields :
    (e : TreeEntry) (s : Bytes)
    → IsEntry e
    → decode_fixed e.mode e.name (to_be_bytes 32 e.hash ++ (to_be_bytes 8 e.size ++ s)) ≡ ok (e, s)
decode_fixed-fields e s v =
    let hash = to_be_bytes 32 e.hash in
    let size = to_be_bytes 8 e.size in
    let wide = length-to_be_bytes 32 e.hash in
    let narrow = length-to_be_bytes 8 e.size in
    let front = take-append 32 hash (size ++ s) wide in
    let back = drop-append 32 hash (size ++ s) wide in
    let middle = take-append 8 size s narrow in
    let behind = drop-drop 32 8 40 (hash ++ (size ++ s)) (omega arith) in
    let last = drop-append 8 size s narrow in
    let enough : ltb (length (hash ++ (size ++ s))) 40 ≡ false =
      ground (arith, length-append hash (size ++ s), length-append size s) in
    let h : from_be_bytes (take 32 (hash ++ (size ++ s))) ≡ e.hash =
      ap from_be_bytes front ∙ from_be_bytes-to_be_bytes 32 e.hash v.hash in
    let z : from_be_bytes (take 8 (drop 32 (hash ++ (size ++ s)))) ≡ e.size =
      ap (λ (t : Bytes). from_be_bytes (take 8 t)) back
      ∙ ap from_be_bytes middle
      ∙ from_be_bytes-to_be_bytes 8 e.size v.size in
    let r : drop 40 (hash ++ (size ++ s)) ≡ s = sym behind ∙ ap (drop 8) back ∙ last in
    decode_fixed-ok e (hash ++ (size ++ s)) s enough h z r v.no_size

decode_entry-parts :
    (s a u n w : Bytes) (m : EntryMode)
    → split_at b' ' s ≡ some (a, u)
    → from_bytes a ≡ ok m
    → split_at 0 u ≡ some (n, w)
    → is_utf8 n ≡ true
    → decode_entry s ≡ decode_fixed m n w
unfolding decode_entry
decode_entry-parts s a u n w m at_space mode at_nul text = ground arith

-- One entry.
pub decode_entry-encode_entry :
    (e : TreeEntry) (s : Bytes) → IsEntry e → decode_entry (encode_entry e ++ s) ≡ ok (e, s)
decode_entry-encode_entry e s v =
    let w = to_be_bytes 32 e.hash ++ (to_be_bytes 8 e.size ++ s) in
    let u = e.name ++ (0 ∷ w) in
    ap decode_entry (entry_shape e s)
    ∙ decode_entry-parts (as_str e.mode ++ (b' ' ∷ u)) (as_str e.mode) u e.name w e.mode
        (split_at-append b' ' (as_str e.mode) u (as_str-has_space e.mode))
        (from_bytes-as_str e.mode) (split_at-append 0 e.name w (check_name-has_nul e.name v.named))
        v.text
    ∙ decode_fixed-fields e s v
