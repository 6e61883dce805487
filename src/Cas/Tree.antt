-- ===== src/Cas/Tree.antt =====
-- `EntryMode`, `TreeEntry` and `Tree` of crates/abra-core/src/cas.rs.
use abra.Crates.{Crates}
use abra.Prelude.{
  ℕ, zero, suc, Bytes, ascii, Bool, true, false, not, ◌&&◌, ◌||◌, Option, none, some, List, [], ◌∷◌,
  ◌++◌, map, any, length, take, drop, ◌==◌, nat_eq, bytes_eq, list_beq, ltb, Result, ok, err,
  invalid, corrupt, panic, ◌>>=◌, ◌>>◌, refuse_if, ok_or, if◌then◌else◌,
}
use abra.Prelude.BigEndian.{to_be_bytes, from_be_bytes}
use abra.Cas.Utf8.{is_utf8}

pub data EntryMode : Type 0 where
  file exec link tree : EntryMode

unfoldable pub as_str : EntryMode → Bytes
as_str EntryMode.file = ascii "file"
as_str EntryMode.exec = ascii "exec"
as_str EntryMode.link = ascii "link"
as_str EntryMode.tree = ascii "tree"

unfoldable pub from_bytes : Bytes → Result EntryMode
from_bytes b =
    if b == ascii "file"
    then ok EntryMode.file
    else if b == ascii "exec"
    then ok EntryMode.exec
    else if b == ascii "link"
    then ok EntryMode.link
    else if b == ascii "tree"
    then ok EntryMode.tree
    else err (corrupt "tree" "unknown mode")

abbrev pub is_tree : EntryMode → Bool
is_tree EntryMode.tree = true
is_tree _ = false

pub record TreeEntry : Type 0 where
  pub name : Bytes
  pub mode : EntryMode
  pub hash : ℕ
  pub size : ℕ

pub record Tree : Type 0 where
  pub entries : List TreeEntry

unfoldable pub check_name : Bytes → Result (Unit {0})
check_name name = do
  refuse_if (length name == 0) (invalid "empty tree entry name")
  refuse_if (name == ascii "." || name == ascii "..") (invalid "illegal tree entry name")
  refuse_if (any (λ b. b == b'/' || (b == b'\\' || b == 0)) name)
      (invalid "tree entry name contains a separator")
  refuse_if (ltb 255 (length name)) (invalid "tree entry name exceeds 255 bytes")

unfoldable pub check_names : List TreeEntry → Result (Unit {0})
check_names [] = ok tt
check_names (e ∷ es) = do check_name e.name; check_names es

-- The order of byte strings.
unfoldable pub bytes_lt : Bytes → Bytes → Bool
bytes_lt s [] = false
bytes_lt [] (b ∷ t) = true
bytes_lt (a ∷ s) (b ∷ t) = ltb a b || (a == b && bytes_lt s t)

-- `sort_by` on the names, which keeps the order of equal ones
unfoldable pub insert_entry : TreeEntry → List TreeEntry → List TreeEntry
unfolding bytes_lt
insert_entry x [] = x ∷ []
insert_entry x (e ∷ es) =
    let rest = insert_entry x es in if bytes_lt e.name x.name then e ∷ rest else x ∷ (e ∷ es)

unfoldable pub sort_entries : List TreeEntry → List TreeEntry
unfolding insert_entry
sort_entries [] = []
sort_entries (e ∷ es) = insert_entry e (sort_entries es)

-- Are two neighbours of one name?
unfoldable pub has_duplicate : List TreeEntry → Bool
unfolding list_beq
has_duplicate [] = false
has_duplicate (e ∷ []) = false
has_duplicate (e ∷ (f ∷ es)) = e.name == f.name || has_duplicate (f ∷ es)

-- `Tree::new`
unfoldable pub new_tree : List TreeEntry → Result Tree
new_tree entries = do
  check_names entries
  let sorted = sort_entries entries
  refuse_if (has_duplicate sorted) (invalid "duplicate tree entry name")
  ok (record { entries = sorted })

abbrev pub magic : Bytes
magic = ascii "abra.tree.v1\n"

unfoldable pub encode_entry : TreeEntry → Bytes
encode_entry e =
    as_str e.mode ++ (b' ' ∷ (e.name ++ (0 ∷ (to_be_bytes 32 e.hash ++ to_be_bytes 8 e.size))))

unfoldable pub encode_entries : List TreeEntry → Bytes
encode_entries [] = []
encode_entries (e ∷ es) = encode_entry e ++ encode_entries es

unfoldable pub encode : Tree → Bytes
encode t = magic ++ encode_entries t.entries

-- What stands before and behind the first such byte.
unfoldable pub split_at : ℕ → Bytes → Option (Bytes × Bytes)
split_at sep [] = none
split_at sep (b ∷ s) =
    let rest = split_at sep s in
    if b == sep
    then some ([], s)
    else elim rest [ none ↦ none | some (before, after) ↦ some (b ∷ before, after) ]

-- The digest and the size of an entry, and the bytes behind them.
unfoldable pub decode_fixed : EntryMode → Bytes → Bytes → Result (TreeEntry × Bytes)
decode_fixed mode name rest = do
  refuse_if (ltb (length rest) 40) (corrupt "tree" "truncated entry hash")
  let hash = from_be_bytes (take 32 rest)
  let size = from_be_bytes (take 8 (drop 32 rest))
  refuse_if (is_tree mode && not (size == 0)) (corrupt "tree" "tree entry size is nonzero")
  ok (record { name = name; mode = mode; hash = hash; size = size }, drop 40 rest)

-- One entry and the bytes behind it.
unfoldable pub decode_entry : Bytes → Result (TreeEntry × Bytes)
decode_entry rest = do
  at_space ← ok_or (split_at b' ' rest) (corrupt "tree" "entry has no mode separator")
  mode ← from_bytes at_space.0
  at_nul ← ok_or (split_at 0 at_space.1) (corrupt "tree" "entry has no name terminator")
  refuse_if (not (is_utf8 at_nul.0)) (corrupt "tree" "name is not utf-8")
  decode_fixed mode at_nul.0 at_nul.1

-- The loop; an entry takes more than 40 bytes, so that the length of the text is enough fuel.
unfoldable pub decode_entries : ℕ → Bytes → Result (List TreeEntry)
decode_entries fuel [] = ok []
decode_entries zero (b ∷ s) = err (panic "out of fuel")
decode_entries (suc fuel) (b ∷ s) = do
  first ← decode_entry (b ∷ s)
  es ← decode_entries fuel first.1
  ok (first.0 ∷ es)

abbrev pub strip_prefix : Bytes → Bytes → Option Bytes
strip_prefix [] s = some s
strip_prefix (p ∷ ps) [] = none
strip_prefix (p ∷ ps) (b ∷ s) = if p == b then strip_prefix ps s else none

abbrev pub names : List TreeEntry → List Bytes
names es = map (λ (e : TreeEntry). e.name) es

unfoldable pub same_names : List Bytes → List Bytes → Bool
unfolding list_beq
same_names [] [] = true
same_names (n ∷ ns) (m ∷ ms) = n == m && same_names ns ms
same_names _ _ = false

unfoldable pub decode : Bytes → Result Tree
decode bytes = do
  rest ← ok_or (strip_prefix magic bytes) (corrupt "tree" "bad magic")
  entries ← decode_entries (length rest) rest
  t ← new_tree entries
  refuse_if (not (same_names (names entries) (names t.entries)))
      (corrupt "tree" "entries are not sorted by name")
  ok t

-- `Tree::get`
unfoldable pub find_entry : List TreeEntry → Bytes → Option TreeEntry
unfolding list_beq
find_entry [] name = none
find_entry (e ∷ es) name = if e.name == name then some e else find_entry es name

module _ ⦃c : Crates⦄ where
  -- `Tree::hash`
  unfoldable pub tree_hash : Tree → ℕ
  unfolding encode
  tree_hash t = c.blake3 (encode t)
