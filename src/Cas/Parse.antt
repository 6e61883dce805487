-- ===== src/Cas/Parse.antt =====
-- Bytes that decode to an entry of a tree (crates/abra-core/src/cas.rs) are its encoding.
use abra.Prelude.{
  ℕ, ◌≤◌, ◌<◌, ◌^◌, ◌≡◌, refl, sym, ap, ◌∙◌, Bytes, true, false, not, ◌&&◌, inl, inr, some, ◌∷◌,
  ◌++◌, length, take, drop, ◌==◌, nat_eq, bytes_eq, ltb, Option-cases, arith, ok,
}
use abra.Prelude.BigEndian.{
  to_be_bytes, from_be_bytes, are_bytes, to_be_bytes-from_be_bytes, from_be_bytes-bound,
}
use abra.Cas.Utf8.{is_utf8}
use abra.Cas.Tree.{
  EntryMode, from_bytes, is_tree, TreeEntry, check_name, encode_entry, split_at, decode_fixed,
  decode_entry,
}
use abra.Cas.Slices.{
  split_at-parts, take-drop, length-take, drop-drop, length-drop, are_bytes-append,
}
use abra.Cas.Codec.{IsEntry, as_str-from_bytes, entry_shape}

decode_fixed-inverse :
    (m : EntryMode) (n w : Bytes) (e : TreeEntry) (rest : Bytes)
    → decode_fixed m n w ≡ ok (e, rest)
    → (ltb (length w) 40 ≡ false)
      × (e.mode ≡ m)
      × (e.name ≡ n)
      × (e.hash ≡ from_be_bytes (take 32 w))
      × (e.size ≡ from_be_bytes (take 8 (drop 32 w)))
      × (rest ≡ drop 40 w)
      × ((is_tree e.mode && not (e.size == 0)) ≡ false)
unfolding decode_fixed
decode_fixed-inverse m n w e rest h = ground arith

-- What an entry is decoded from.
pub record Parts (s : Bytes) (e : TreeEntry) (rest : Bytes) : Type 0 where
  pub text : Bytes
  pub tail : Bytes
  pub fixed : Bytes
  pub at_space : split_at b' ' s ≡ some (text, tail)
  pub mode : from_bytes text ≡ ok e.mode
  pub at_nul : split_at 0 tail ≡ some (e.name, fixed)
  pub utf8 : is_utf8 e.name ≡ true
  pub long : ltb (length fixed) 40 ≡ false
  pub hash : e.hash ≡ from_be_bytes (take 32 fixed)
  pub size : e.size ≡ from_be_bytes (take 8 (drop 32 fixed))
  pub behind : rest ≡ drop 40 fixed
  pub no_size : (is_tree e.mode && not (e.size == 0)) ≡ false

decode_entry-rest :
    (s a u n w : Bytes) (e : TreeEntry) (rest : Bytes)
    → split_at b' ' s ≡ some (a, u)
    → split_at 0 u ≡ some (n, w)
    → decode_entry s ≡ ok (e, rest)
    → (m : EntryMode) × (from_bytes a ≡ ok m)
      × (is_utf8 n ≡ true)
      × (decode_fixed m n w ≡ ok (e, rest))
unfolding decode_entry
decode_entry-rest s a u n w e rest at_space at_nul h = ground arith

pub decode_entry-Parts :
    (s : Bytes) (e : TreeEntry) (rest : Bytes) → decode_entry s ≡ ok (e, rest) → Parts s e rest
unfolding decode_entry
decode_entry-Parts s e rest h = elim (Option-cases (split_at b' ' s)) [
  | inl absent ↦ ground arith
  | inr ((a, u), at_space) ↦ elim (Option-cases (split_at 0 u)) [
    | inl absent ↦ ground arith
    | inr ((n, w), at_nul) ↦
        let (m, mode, utf8, done) = decode_entry-rest s a u n w e rest at_space at_nul h in
        let (long, same_mode, same_name, hash, size, behind, no_size) =
          decode_fixed-inverse m n w e rest done in
        record {
          text = a;
          tail = u;
          fixed = w;
          at_space = at_space;
          mode = mode ∙ ap ok (sym same_mode);
          at_nul = at_nul ∙ ap (λ (k : Bytes). some (k, w)) (sym same_name);
          utf8 = ap is_utf8 same_name ∙ utf8;
          long = long;
          hash = hash;
          size = size;
          behind = behind;
          no_size = no_size;
        }
  ]
]

-- The bytes behind a name are those of its digest and size and the rest.
fixed_shape :
    (w : Bytes) (hash size : ℕ) (rest : Bytes)
    → are_bytes w ≡ true
    → ltb (length w) 40 ≡ false
    → hash ≡ from_be_bytes (take 32 w)
    → size ≡ from_be_bytes (take 8 (drop 32 w))
    → rest ≡ drop 40 w
    → (w ≡ to_be_bytes 32 hash ++ (to_be_bytes 8 size ++ rest))
      × (hash < 256 ^ 32)
      × (size < 256 ^ 8)
      × (are_bytes rest ≡ true)
fixed_shape w hash size rest bytes long h z r =
    let tail = drop 32 w in
    let enough : 40 ≤ length w = ground arith in
    let left = length-drop 32 w (omega arith) in
    let (front_bytes, tail_bytes) =
      are_bytes-append (take 32 w) tail (ap are_bytes (take-drop 32 w) ∙ bytes) in
    let (size_bytes, rest_bytes) =
      are_bytes-append (take 8 tail) (drop 8 tail) (ap are_bytes (take-drop 8 tail) ∙ tail_bytes) in
    let wide = length-take 32 w (omega arith) in
    let narrow = length-take 8 tail (omega arith) in
    let front = ap (to_be_bytes 32) h ∙ to_be_bytes-from_be_bytes 32 (take 32 w) wide front_bytes in
    let middle =
      ap (to_be_bytes 8) z ∙ to_be_bytes-from_be_bytes 8 (take 8 tail) narrow size_bytes in
    let behind = r ∙ sym (drop-drop 32 8 40 w (omega arith)) in
    let parts : to_be_bytes 32 hash ++ (to_be_bytes 8 size ++ rest)
        ≡ take 32 w ++ (take 8 tail ++ drop 8 tail) =
      rw front (rw middle (rw behind refl)) in
    let cut = sym (take-drop 32 w) ∙ ap (λ (t : Bytes). take 32 w ++ t) (sym (take-drop 8 tail)) in
    (
      cut ∙ sym parts,
      rw h (from_be_bytes-bound 32 (take 32 w) wide front_bytes),
      rw z (from_be_bytes-bound 8 (take 8 tail) narrow size_bytes),
      ap are_bytes behind ∙ rest_bytes,
    )

split_at-are_bytes :
    (sep : ℕ) (s before after : Bytes)
    → split_at sep s ≡ some (before, after)
    → are_bytes s ≡ true
    → are_bytes after ≡ true
split_at-are_bytes sep s before after found bytes =
    let whole = ap are_bytes (sym (split_at-parts sep s before after found)) ∙ bytes in
    let (front, back) = are_bytes-append before (sep ∷ after) whole in ground arith

-- Bytes that decode to an entry are its encoding, with the rest behind it.
pub encode_entry-decode_entry :
    (s : Bytes) (e : TreeEntry) (rest : Bytes)
    → are_bytes s ≡ true
    → decode_entry s ≡ ok (e, rest)
    → (encode_entry e ++ rest ≡ s)
      × (are_bytes rest ≡ true)
      × (check_name e.name ≡ ok tt → IsEntry e)
encode_entry-decode_entry s e rest bytes h =
    let p = decode_entry-Parts s e rest h in
    let tail = split_at-are_bytes b' ' s p.text p.tail p.at_space bytes in
    let fixed = split_at-are_bytes 0 p.tail e.name p.fixed p.at_nul tail in
    let (shape, hash, size, rest_bytes) =
      fixed_shape p.fixed e.hash e.size rest fixed p.long p.hash p.size p.behind in
    let whole =
      entry_shape e rest
      ∙ ap
          (λ (t : Bytes).
            t
            ++ (b' ' ∷ (e.name ++ (0 ∷ (to_be_bytes 32 e.hash ++ (to_be_bytes 8 e.size ++ rest))))))
          (as_str-from_bytes p.text e.mode p.mode)
      ∙ ap (λ (t : Bytes). p.text ++ (b' ' ∷ (e.name ++ (0 ∷ t)))) (sym shape)
      ∙ ap (λ (t : Bytes). p.text ++ (b' ' ∷ t))
          (sym (split_at-parts 0 p.tail e.name p.fixed p.at_nul))
      ∙ sym (split_at-parts b' ' s p.text p.tail p.at_space) in
    (
      whole,
      rest_bytes,
      λ named. record {
        named = named;
        text = p.utf8;
        hash = hash;
        size = size;
        no_size = p.no_size;
      },
    )
