-- ===== src/Cas/RoundTrip.antt =====
-- `Tree::decode` of crates/abra-core/src/cas.rs reads what `Tree::encode` writes.
use abra.Prelude.{
  ℕ, zero, suc, ◌≤◌, ◌≡◌, refl, sym, ap, ◌∙◌, Bytes, ascii, true, some, List, [], ◌∷◌, ◌++◌, length,
  length-append, nat_eq, bytes_eq, arith, ok,
}
use abra.Prelude.BigEndian.{to_be_bytes}
use abra.Cas.Tree.{
  EntryMode, as_str, TreeEntry, Tree, check_names, new_tree, magic, encode_entry, encode_entries,
  encode, decode_entry, decode_entries, strip_prefix, names, same_names, decode,
}
use abra.Cas.Order.{increasing, sort_entries-increasing, has_duplicate-increasing, same_names_refl}
use abra.Cas.Codec.{AreEntries, IsTree, entry_shape, decode_entry-encode_entry}

as_str-cons : (m : EntryMode) → (b : ℕ) × (t : Bytes) × (as_str m ≡ b ∷ t)
unfolding as_str
as_str-cons EntryMode.file = (b'f', ascii "ile", refl)
as_str-cons EntryMode.exec = (b'e', ascii "xec", refl)
as_str-cons EntryMode.link = (b'l', ascii "ink", refl)
as_str-cons EntryMode.tree = (b't', ascii "ree", refl)

-- An entry starts with its mode.
encode_entry-cons :
    (e : TreeEntry) (s : Bytes)
    → (b : ℕ) × (t : Bytes) × (encode_entry e ++ s ≡ b ∷ t) × (length s ≤ length t)
encode_entry-cons e s =
    let (b, t, mode) = as_str-cons e.mode in
    let hash = to_be_bytes 32 e.hash in
    let size = to_be_bytes 8 e.size in
    let behind = b' ' ∷ (e.name ++ (0 ∷ (hash ++ (size ++ s)))) in
    (
      b,
      t ++ behind,
      entry_shape e s ∙ ap (λ (u : Bytes). u ++ behind) mode,
      omega (
        arith,
        length-append t behind,
        length-append e.name (0 ∷ (hash ++ (size ++ s))),
        length-append hash (size ++ s),
        length-append size s,
      ),
    )

decode_entries-cons :
    (fuel b : ℕ) (s : Bytes) (e : TreeEntry) (rest : Bytes) (es : List TreeEntry)
    → decode_entry (b ∷ s) ≡ ok (e, rest)
    → decode_entries fuel rest ≡ ok es
    → decode_entries (suc fuel) (b ∷ s) ≡ ok (e ∷ es)
unfolding decode_entries
decode_entries-cons fuel b s e rest es h g = ground arith

decode_entries-nil : (fuel : ℕ) → decode_entries fuel [] ≡ ok []
unfolding decode_entries
decode_entries-nil fuel = refl

decode_entries-encode_entries :
    (fuel : ℕ) (es : List TreeEntry)
    → AreEntries es
    → length (encode_entries es) ≤ fuel
    → decode_entries fuel (encode_entries es) ≡ ok es
unfolding encode_entries
decode_entries-encode_entries fuel [] v enough = decode_entries-nil fuel
decode_entries-encode_entries zero (e ∷ es) (v, vs) enough =
    let (b, t, shape, longer) = encode_entry-cons e (encode_entries es) in
    let none_left : suc (length t) ≤ 0 = omega (arith, enough, ap length shape) in ground arith
decode_entries-encode_entries (suc fuel) (e ∷ es) (v, vs) enough =
    let (b, t, shape, longer) = encode_entry-cons e (encode_entries es) in
    let first = ap decode_entry (sym shape) ∙ decode_entry-encode_entry e (encode_entries es) v in
    let rest =
      decode_entries-encode_entries fuel es vs (omega (arith, enough, ap length shape, longer)) in
    ap (decode_entries (suc fuel)) shape
    ∙ decode_entries-cons fuel b t e (encode_entries es) es first rest

check_names-AreEntries : (es : List TreeEntry) → AreEntries es → check_names es ≡ ok tt
unfolding check_names
check_names-AreEntries [] v = refl
check_names-AreEntries (e ∷ es) (v, vs) = ground (arith, v.named, check_names-AreEntries es vs)

strip_prefix-append : (p s : Bytes) → strip_prefix p (p ++ s) ≡ some s
strip_prefix-append [] s = refl
strip_prefix-append (b ∷ p) s = ground (arith, strip_prefix-append p s)

new_tree-increasing :
    (es : List TreeEntry)
    → check_names es ≡ ok tt
    → increasing (names es) ≡ true
    → new_tree es ≡ ok (record { entries = es })
unfolding new_tree
new_tree-increasing es named sorted =
    ground (arith, sort_entries-increasing es sorted, has_duplicate-increasing es sorted)

decode-parts :
    (bytes rest : Bytes) (es : List TreeEntry) (t : Tree)
    → strip_prefix magic bytes ≡ some rest
    → decode_entries (length rest) rest ≡ ok es
    → new_tree es ≡ ok t
    → same_names (names es) (names t.entries) ≡ true
    → decode bytes ≡ ok t
unfolding decode
decode-parts bytes rest es t prefix entries made same = ground arith

-- A tree is decoded from its encoding, given what `Tree::new` ensures (valid names, sorted and
-- distinct) and also that every directory entry has size 0, which `Tree::new` does not check.
pub decode-encode : (t : Tree) → IsTree t → decode (encode t) ≡ ok t
unfolding encode
decode-encode t v =
    let s = encode_entries t.entries in
    decode-parts (magic ++ s) s t.entries t (strip_prefix-append magic s)
      (decode_entries-encode_entries (length s) t.entries v.entries (omega arith))
      (new_tree-increasing t.entries (check_names-AreEntries t.entries v.entries) v.sorted)
      (same_names_refl (names t.entries))
