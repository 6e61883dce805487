-- ===== src/Cas/Fuel.antt =====
-- The loop of `Tree::decode` (crates/abra-core/src/cas.rs) ends: its fuel is enough for all bytes.
use abra.Prelude.{
  ℕ, zero, suc, ◌≤◌, ◌<◌, ◌≡◌, refl, ap, Bytes, Bool, true, false, not, some, List, [], ◌∷◌, length,
  length-append, nat_eq, bytes_eq, arith, Result, ok, err, ◌>>=◌, refuse_if, ok_or, corrupt, panic,
}
use abra.Cas.Utf8.{is_utf8}
use abra.Cas.Tree.{
  EntryMode, from_bytes, TreeEntry, check_name, check_names, new_tree, magic, split_at,
  decode_fixed, decode_entry, decode_entries, strip_prefix, decode,
}
use abra.Cas.Slices.{split_at-parts, length-drop}
use abra.Cas.Parse.{decode_entry-Parts}

-- An error that stands for fuel that has run out
abbrev pub is_panic {ℓ} : {A : Type ℓ} → Result A → Bool
is_panic (ok a) = false
is_panic (err (panic s)) = true
is_panic (err e) = false

split_at-shorter :
    (sep : ℕ) (s before after : Bytes)
    → split_at sep s ≡ some (before, after)
    → length after < length s
split_at-shorter sep s before after h =
    let whole = ap length (split_at-parts sep s before after h) in
    omega (arith, whole, length-append before (sep ∷ after))

decode_entry-shorter :
    (s : Bytes) (e : TreeEntry) (rest : Bytes)
    → decode_entry s ≡ ok (e, rest)
    → length rest < length s
decode_entry-shorter s e rest h =
    let p = decode_entry-Parts s e rest h in
    let front = split_at-shorter b' ' s p.text p.tail p.at_space in
    let middle = split_at-shorter 0 p.tail e.name p.fixed p.at_nul in
    let long : 40 ≤ length p.fixed = ground (arith, p.long) in
    omega (arith, front, middle, ap length p.behind, length-drop 40 p.fixed long)

bind-is_panic {ℓ κ} :
    {A : Type ℓ} {B : Type κ} (m : Result A) (f : A → Result B)
    → is_panic m ≡ false
    → ((a : A) → m ≡ ok a → is_panic (f a) ≡ false)
    → is_panic (m >>= f) ≡ false
bind-is_panic (ok a) f h g = g a refl
bind-is_panic (err e) f h g = ground arith

decode_fixed-is_panic : (m : EntryMode) (n w : Bytes) → is_panic (decode_fixed m n w) ≡ false
unfolding decode_fixed
decode_fixed-is_panic m n w = ground arith

from_bytes-is_panic : (s : Bytes) → is_panic (from_bytes s) ≡ false
unfolding from_bytes
from_bytes-is_panic s = ground arith

decode_entry-is_panic : (s : Bytes) → is_panic (decode_entry s) ≡ false
unfolding decode_entry
decode_entry-is_panic s =
    bind-is_panic (ok_or (split_at b' ' s) (corrupt "tree" "entry has no mode separator")) _
      (ground arith)
      (λ p at_space. bind-is_panic (from_bytes p.0) _ (from_bytes-is_panic p.0) (λ m mode.
        bind-is_panic (ok_or (split_at 0 p.1) (corrupt "tree" "entry has no name terminator")) _
          (ground arith)
          (λ q at_nul.
            bind-is_panic (refuse_if (not (is_utf8 q.0)) (corrupt "tree" "name is not utf-8")) _
              (ground arith) (λ u text. decode_fixed-is_panic m q.0 q.1))))

decode_entries-is_panic :
    (fuel : ℕ) (s : Bytes) → length s ≤ fuel → is_panic (decode_entries fuel s) ≡ false
unfolding decode_entries
decode_entries-is_panic fuel [] h = refl
decode_entries-is_panic zero (b ∷ s) h = ground arith
decode_entries-is_panic (suc fuel) (b ∷ s) h =
    bind-is_panic (decode_entry (b ∷ s)) _ (decode_entry-is_panic (b ∷ s)) (λ p first.
      bind-is_panic (decode_entries fuel p.1) _
        (decode_entries-is_panic fuel p.1
          (omega (arith, h, decode_entry-shorter (b ∷ s) p.0 p.1 first)))
        (λ es others. refl))

check_name-is_panic : (name : Bytes) → is_panic (check_name name) ≡ false
unfolding check_name
check_name-is_panic name = ground arith

check_names-is_panic : (es : List TreeEntry) → is_panic (check_names es) ≡ false
unfolding check_names
check_names-is_panic [] = refl
check_names-is_panic (e ∷ es) =
    bind-is_panic (check_name e.name) _ (check_name-is_panic e.name)
      (λ u done. check_names-is_panic es)

new_tree-is_panic : (es : List TreeEntry) → is_panic (new_tree es) ≡ false
unfolding new_tree
new_tree-is_panic es =
    bind-is_panic (check_names es) _ (check_names-is_panic es) (λ u named. ground arith)

-- The loop of `decode` ends within its fuel, whatever the bytes are: it gives a tree or refuses
-- them.
pub decode-is_panic : (bytes : Bytes) → is_panic (decode bytes) ≡ false
unfolding decode
decode-is_panic bytes =
    bind-is_panic (ok_or (strip_prefix magic bytes) (corrupt "tree" "bad magic")) _ (ground arith)
      (λ rest prefix.
        bind-is_panic (decode_entries (length rest) rest) _
          (decode_entries-is_panic (length rest) rest (omega arith))
          (λ es entries.
            bind-is_panic (new_tree es) _ (new_tree-is_panic es) (λ t made. ground arith)))
