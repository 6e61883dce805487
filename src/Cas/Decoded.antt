-- ===== src/Cas/Decoded.antt =====
-- What `Tree::decode` of crates/abra-core/src/cas.rs accepts.
use abra.Prelude.{
  ℕ, zero, suc, ◌≡◌, refl, sym, ap, ◌∙◌, Bytes, true, false, not, inl, inr, some, List, [], ◌∷◌,
  ◌++◌, length, nat_eq, bytes_eq, Option-cases, arith, Result, ok, ◌>>=◌, ◌>>◌, refuse_if, corrupt,
  >>=-eq-ok,
}
use abra.Prelude.BigEndian.{are_bytes}
use abra.Cas.Tree.{
  TreeEntry, Tree, check_name, check_names, sort_entries, has_duplicate, new_tree, magic,
  encode_entry, encode_entries, encode, decode_entry, decode_entries, strip_prefix, names,
  same_names, decode,
}
use abra.Cas.Order.{sort_entries-increasing, sorted_names-increasing}
use abra.Cas.Slices.{are_bytes-append}
use abra.Cas.Codec.{AreEntries, IsTree}
use abra.Cas.Parse.{encode_entry-decode_entry}

strip_prefix-parts : (p s t : Bytes) → strip_prefix p s ≡ some t → s ≡ p ++ t
strip_prefix-parts [] s t h = ground arith
strip_prefix-parts (b ∷ p) [] t h = ground arith
strip_prefix-parts (b ∷ p) (d ∷ s) t h = ground (arith, strip_prefix-parts p s t)

decode_entries-step :
    (fuel b : ℕ) (s : Bytes) (es : List TreeEntry)
    → decode_entries (suc fuel) (b ∷ s) ≡ ok es
    → (e : TreeEntry) × (rest : Bytes) × (fs : List TreeEntry) × (decode_entry (b ∷ s)
        ≡ ok (e, rest))
      × (decode_entries fuel rest ≡ ok fs)
      × (es ≡ e ∷ fs)
unfolding decode_entries
decode_entries-step fuel b s es h =
    let (p, first, next) =
      >>=-eq-ok (decode_entry (b ∷ s))
        (λ (p : TreeEntry × Bytes).
          decode_entries fuel p.1 >>= λ (fs : List TreeEntry). ok (p.0 ∷ fs))
        h in
    let (fs, others, done) =
      >>=-eq-ok (decode_entries fuel p.1) (λ (fs : List TreeEntry). ok (p.0 ∷ fs)) next in
    (p.0, p.1, fs, first, others, ground arith)

check_names-cons :
    (e : TreeEntry) (es : List TreeEntry)
    → check_names (e ∷ es) ≡ ok tt
    → (check_name e.name ≡ ok tt) × (check_names es ≡ ok tt)
unfolding check_names
check_names-cons e es h = ground arith

decode_entries-nil_eq : (fuel : ℕ) (es : List TreeEntry) → decode_entries fuel [] ≡ ok es → es ≡ []
unfolding decode_entries
decode_entries-nil_eq fuel es h = ground arith

encode_entries-decode_entries :
    (fuel : ℕ) (s : Bytes) (es : List TreeEntry)
    → are_bytes s ≡ true
    → decode_entries fuel s ≡ ok es
    → (encode_entries es ≡ s) × (check_names es ≡ ok tt → AreEntries es)
unfolding decode_entries encode_entries
encode_entries-decode_entries fuel [] es bytes h =
    rw (decode_entries-nil_eq fuel es h) (refl, λ named. tt)
encode_entries-decode_entries zero (b ∷ s) es bytes h = ground arith
encode_entries-decode_entries (suc fuel) (b ∷ s) es bytes h =
    let (e, rest, fs, first, others, same) = decode_entries-step fuel b s es h in
    let (whole, rest_bytes, entry) = encode_entry-decode_entry (b ∷ s) e rest bytes first in
    let (tail, entries) = encode_entries-decode_entries fuel rest fs rest_bytes others in
    rw same (
      ap (λ (u : Bytes). encode_entry e ++ u) tail ∙ whole,
      λ named.
          let (first_named, named) = check_names-cons e fs named in
          (entry first_named, entries named),
    )

-- What a tree is decoded from.
record Decoded (bytes : Bytes) (t : Tree) : Type 0 where
  rest : Bytes
  es : List TreeEntry
  prefix : strip_prefix magic bytes ≡ some rest
  entries : decode_entries (length rest) rest ≡ ok es
  named : check_names es ≡ ok tt
  unique : has_duplicate (sort_entries es) ≡ false
  made : t ≡ record { entries = sort_entries es }
  same : same_names (names es) (names (sort_entries es)) ≡ true

-- What `decode` does with the entries.
abbrev decode_tail : List TreeEntry → Result Tree
decode_tail es = do
  t ← new_tree es
  refuse_if (not (same_names (names es) (names t.entries)))
      (corrupt "tree" "entries are not sorted by name")
  ok t

decode-body :
    (bytes rest : Bytes) (t : Tree)
    → strip_prefix magic bytes ≡ some rest
    → decode bytes ≡ ok t
    → (decode_entries (length rest) rest >>= λ (es : List TreeEntry). decode_tail es) ≡ ok t
unfolding decode
decode-body bytes rest t prefix h = ground arith

decode_tail-parts :
    (es : List TreeEntry) (t : Tree)
    → decode_tail es ≡ ok t
    → (check_names es ≡ ok tt)
      × (has_duplicate (sort_entries es) ≡ false)
      × (t ≡ record { entries = sort_entries es })
      × (same_names (names es) (names (sort_entries es)) ≡ true)
unfolding new_tree
decode_tail-parts es t h = ground arith

decode-Decoded : (bytes : Bytes) (t : Tree) → decode bytes ≡ ok t → Decoded bytes t
unfolding decode
decode-Decoded bytes t h = elim (Option-cases (strip_prefix magic bytes)) [
  | inl absent ↦ ground arith
  | inr (rest, prefix) ↦
      let body = decode-body bytes rest t prefix h in
      let (es, entries, last) =
        >>=-eq-ok (decode_entries (length rest) rest) (λ (es : List TreeEntry). decode_tail es)
          body in
      let (named, unique, made, same) = decode_tail-parts es t last in
      record {
        rest = rest;
        es = es;
        prefix = prefix;
        entries = entries;
        named = named;
        unique = unique;
        made = made;
        same = same;
      }
]

-- Bytes that decode to a tree are its encoding, and the tree's entries are valid and sorted, with
-- size 0 for directories. So no two byte strings decode to one tree.
pub encode-decode :
    (bytes : Bytes) (t : Tree)
    → are_bytes bytes ≡ true
    → decode bytes ≡ ok t
    → (encode t ≡ bytes) × IsTree t
unfolding encode
encode-decode bytes t are h =
    let d = decode-Decoded bytes t h in
    let sorted = sorted_names-increasing d.es d.unique d.same in
    let entries = ap (λ (u : Tree). u.entries) d.made ∙ sort_entries-increasing d.es sorted in
    let front = strip_prefix-parts magic bytes d.rest d.prefix in
    let (head, rest_bytes) = are_bytes-append magic d.rest (ap are_bytes (sym front) ∙ are) in
    let (whole, valid) =
      encode_entries-decode_entries (length d.rest) d.rest d.es rest_bytes d.entries in
    (
      ap (λ (es : List TreeEntry). magic ++ encode_entries es) entries
          ∙ ap (λ (s : Bytes). magic ++ s) whole
          ∙ sym front,
      record { entries = rw entries (valid d.named); sorted = rw entries sorted },
    )
