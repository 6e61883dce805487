-- ===== src/Cas/Order.antt =====
-- The order of the entries of a tree (crates/abra-core/src/cas.rs).
use abra.Prelude.{
  ◌≡◌, refl, ap, ◌∙◌, Bytes, Bool, true, false, not, ◌&&◌, List, [], ◌∷◌, nat_eq, bytes_eq,
  list_beq_iff, ==_refl, arith,
}
use abra.Cas.Tree.{
  TreeEntry, bytes_lt, insert_entry, sort_entries, has_duplicate, names, same_names,
}

bytes_lt_asym : (s t : Bytes) → bytes_lt s t ≡ true → bytes_lt t s ≡ false
unfolding bytes_lt
bytes_lt_asym s [] h = ground arith
bytes_lt_asym [] (b ∷ t) h = refl
bytes_lt_asym (a ∷ s) (b ∷ t) h = ground (arith, bytes_lt_asym s t)

bytes_lt_irrefl : (s : Bytes) → bytes_lt s s ≡ false
unfolding bytes_lt
bytes_lt_irrefl [] = refl
bytes_lt_irrefl (a ∷ s) = ground (arith, bytes_lt_irrefl s)

bytes_lt_total : (s t : Bytes) → bytes_lt s t ≡ false → bytes_lt t s ≡ false → s ≡ t
unfolding bytes_lt
bytes_lt_total [] [] h g = refl
bytes_lt_total [] (b ∷ t) h g = ground arith
bytes_lt_total (a ∷ s) [] h g = ground arith
bytes_lt_total (a ∷ s) (b ∷ t) h g = ground (arith, bytes_lt_total s t)

-- Is each name below the next one?
unfoldable pub increasing : List Bytes → Bool
increasing [] = true
increasing (n ∷ []) = true
increasing (n ∷ (m ∷ ns)) = bytes_lt n m && increasing (m ∷ ns)

-- Is no name above the next one?
abbrev ordered : List Bytes → Bool
ordered [] = true
ordered (n ∷ []) = true
ordered (n ∷ (m ∷ ns)) = not (bytes_lt m n) && ordered (m ∷ ns)

insert_entry-least :
    (e f : TreeEntry) (es : List TreeEntry)
    → bytes_lt e.name f.name ≡ true
    → insert_entry e (f ∷ es) ≡ e ∷ (f ∷ es)
unfolding insert_entry
insert_entry-least e f es h = ground (arith, bytes_lt_asym e.name f.name)

pub sort_entries-increasing :
    (es : List TreeEntry) → increasing (names es) ≡ true → sort_entries es ≡ es
unfolding sort_entries insert_entry increasing
sort_entries-increasing [] h = refl
sort_entries-increasing (e ∷ []) h = refl
sort_entries-increasing (e ∷ (f ∷ es)) h =
    ap (insert_entry e) (sort_entries-increasing (f ∷ es) (ground arith))
    ∙ insert_entry-least e f es (ground arith)

pub has_duplicate-increasing :
    (es : List TreeEntry) → increasing (names es) ≡ true → has_duplicate es ≡ false
unfolding has_duplicate increasing
has_duplicate-increasing [] h = refl
has_duplicate-increasing (e ∷ []) h = refl
has_duplicate-increasing (e ∷ (f ∷ es)) h =
    ground
      (arith, has_duplicate-increasing (f ∷ es), list_beq_iff e.name f.name, bytes_lt_irrefl e.name)

insert_entry-ordered :
    (x : TreeEntry) (es : List TreeEntry)
    → ordered (names es) ≡ true
    → ordered (names (insert_entry x es)) ≡ true
unfolding insert_entry
insert_entry-ordered x [] h = refl
insert_entry-ordered x (e ∷ []) h = ground (arith, bytes_lt_asym e.name x.name)
insert_entry-ordered x (e ∷ (f ∷ es)) h =
    ground (arith, insert_entry-ordered x (f ∷ es), bytes_lt_asym e.name x.name)

sort_entries-ordered : (es : List TreeEntry) → ordered (names (sort_entries es)) ≡ true
unfolding sort_entries
sort_entries-ordered [] = refl
sort_entries-ordered (e ∷ es) = insert_entry-ordered e (sort_entries es) (sort_entries-ordered es)

ordered-increasing :
    (es : List TreeEntry)
    → ordered (names es) ≡ true
    → has_duplicate es ≡ false
    → increasing (names es) ≡ true
unfolding has_duplicate increasing
ordered-increasing [] h g = refl
ordered-increasing (e ∷ []) h g = refl
ordered-increasing (e ∷ (f ∷ es)) h g =
    ground
      (arith, ordered-increasing (f ∷ es), bytes_lt_total e.name f.name, list_beq_iff e.name f.name)

pub same_names_refl : (ns : List Bytes) → same_names ns ns ≡ true
unfolding same_names
same_names_refl [] = refl
same_names_refl (n ∷ ns) = ground (arith, same_names_refl ns, ==_refl n)

same_names-eq : (ns ms : List Bytes) → same_names ns ms ≡ true → ns ≡ ms
unfolding same_names
same_names-eq [] [] h = refl
same_names-eq [] (m ∷ ms) h = ground arith
same_names-eq (n ∷ ns) [] h = ground arith
same_names-eq (n ∷ ns) (m ∷ ms) h = ground (arith, same_names-eq ns ms, list_beq_iff n m)

-- Entries whose order the sort leaves, and whose sorted list has no duplicate, are in strict order.
pub sorted_names-increasing :
    (es : List TreeEntry)
    → has_duplicate (sort_entries es) ≡ false
    → same_names (names es) (names (sort_entries es)) ≡ true
    → increasing (names es) ≡ true
sorted_names-increasing es unique same =
    let p = same_names-eq (names es) (names (sort_entries es)) same in
    rw p (ordered-increasing (sort_entries es) (sort_entries-ordered es) unique)
