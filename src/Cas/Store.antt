-- ===== src/Cas/Store.antt =====
-- `BlobStore` of crates/abra-core/src/cas.rs: the files under `objects`, by the digest that names
-- them. A file may hold any bytes, since a disk can be damaged. Of the errors of the file system
-- only a missing file is modelled; the temporary files of `put` are renamed at once.
use abra.Crates.{Crates}
use abra.Prelude.{
  ℕ, ◌≡◌, ap, ◌∙◌, ◌↔◌, inl, inr, Bytes, Bool, true, false, not, none, some, [], ◌∷◌, length, ◌==◌,
  nat_eq, Option-cases, Bool-cases, arith, Result, ok, not_found, corrupt, is_ok, ◌>>=◌, ◌>>◌,
  refuse_if, ok_or, if◌then◌else◌,
}
use abra.Prelude.Map
use abra.Prelude.Map.{insert, get-insert, get-insert_self}
use abra.Cas.Tree.{Tree, encode, decode}

abbrev pub Files : Type 0
Files = Map.Map ℕ Bytes

-- `fs::remove_file`
unfoldable pub remove : Files → ℕ → Files
remove [] h = []
remove ((k, b) ∷ s) h = let rest = remove s h in if k == h then rest else (k, b) ∷ rest

module _ ⦃c : Crates⦄ where
  unfoldable pub get : Files → ℕ → Result Bytes
  get s h = do
    bytes ← ok_or (Map.get s h) (not_found "blob" "")
    refuse_if (not (c.blake3 bytes == h)) (corrupt "blob" "content does not hash to its name")
    ok bytes

  -- `verify_object` reads the file in pieces and counts its bytes.
  unfoldable pub verify_object : Files → ℕ → Result ℕ
  verify_object s h = do
    bytes ← ok_or (Map.get s h) (not_found "blob" "")
    refuse_if (not (c.blake3 bytes == h)) (corrupt "blob" "content does not hash to its name")
    ok (length bytes)

  -- The answer of `has`, and the files: it removes one that does not hash to its name.
  unfoldable pub has : Files → ℕ → Bool × Files
  has s h = elim (Map.get s h) [
    | none ↦ (false, s)
    | some bytes ↦ if c.blake3 bytes == h then (true, s) else (false, remove s h)
  ]

  -- `put`; an intact file is left, a damaged one replaced.
  unfoldable pub put : Files → Bytes → ℕ × Files
  put s bytes = let h = c.blake3 bytes in if is_ok (get s h) then (h, s) else (h, insert s h bytes)

  unfoldable pub put_tree : Files → Tree → ℕ × Files
  put_tree s t = put s (encode t)

  unfoldable pub get_tree : Files → ℕ → Result Tree
  get_tree s h = do bytes ← get s h; decode bytes

  -- No other bytes of the store have the digest of these.
  abbrev pub NoCollision : Files → Bytes → Type 0
  NoCollision s bytes =
      (other : Bytes)
      → Map.get s (c.blake3 bytes) ≡ some other
      → c.blake3 other ≡ c.blake3 bytes
      → other ≡ bytes

  -- A file whose content does not hash to its name is never returned.
  pub get-blake3 : (s : Files) (h : ℕ) (bytes : Bytes) → get s h ≡ ok bytes → c.blake3 bytes ≡ h
  unfolding get
  get-blake3 s h bytes e = ground arith

  get-stored :
      (s : Files) (h : ℕ) (bytes : Bytes)
      → Map.get s h ≡ some bytes
      → c.blake3 bytes ≡ h
      → get s h ≡ ok bytes
  unfolding get
  get-stored s h bytes there e = ground arith

  is_ok-get :
      (s : Files) (h : ℕ)
      → is_ok (get s h) ≡ true
      → (bytes : Bytes) × (Map.get s h ≡ some bytes) × (get s h ≡ ok bytes)
  unfolding get
  is_ok-get s h e = elim (Option-cases (Map.get s h)) [
    | inl absent ↦ ground arith
    | inr (bytes, there) ↦ (bytes, there, ground arith)
  ]

  get-insert_object :
      (s : Files) (bytes : Bytes) (h : ℕ)
      → get (insert s (c.blake3 bytes) bytes) h
        ≡ (if c.blake3 bytes == h then ok bytes else get s h)
  unfolding get
  get-insert_object s bytes h = ground (arith, get-insert s (c.blake3 bytes) h bytes)

  stored-bytes :
      (s : Files) (bytes : Bytes)
      → NoCollision s bytes
      → is_ok (get s (c.blake3 bytes)) ≡ true
      → get s (c.blake3 bytes) ≡ ok bytes
  stored-bytes s bytes distinct e =
      let (other, there, read) = is_ok-get s (c.blake3 bytes) e in
      read ∙ ap ok (distinct other there (get-blake3 s (c.blake3 bytes) other read))

  -- What is put is read back under its digest, even where a damaged file stood there, and every
  -- other object reads as before, given that no other stored bytes have that digest.
  pub put-get :
      (s : Files) (bytes : Bytes) (h : ℕ)
      → NoCollision s bytes
      → get (put s bytes).1 h ≡ (if c.blake3 bytes == h then ok bytes else get s h)
  unfolding put
  put-get s bytes h distinct = elim (Bool-cases (is_ok (get s (c.blake3 bytes)))) [
    | inl there ↦ ground (arith, stored-bytes s bytes distinct there)
    | inr damaged ↦ ground (arith, get-insert_object s bytes h)
  ]

  remove-get :
      (s : Files) (k h : ℕ) → Map.get (remove s k) h ≡ (if k == h then none else Map.get s h)
  unfolding remove Map.get
  remove-get [] k h = ground arith
  remove-get ((j, b) ∷ s) k h = ground (arith, remove-get s k h)

  -- `has` answers whether the object can be read, and changes what no object reads as: at most it
  -- turns a damaged file into a missing one.
  pub has-get :
      (s : Files) (h k : ℕ)
      → ((has s h).0 ≡ is_ok (get s h))
        × (is_ok (get (has s h).1 k) ≡ is_ok (get s k))
        × (is_ok (get s k) ≡ true → get (has s h).1 k ≡ get s k)
  unfolding has get
  has-get s h k = elim (Option-cases (Map.get s h)) [
    | inl absent ↦ ground arith
    | inr (bytes, there) ↦ ground (arith, remove-get s h k)
  ]

  -- `verify_object` accepts exactly the objects that can be read, and gives their length.
  pub verify_object-get :
      (s : Files) (h n : ℕ)
      → (verify_object s h ≡ ok n) ↔ ((bytes : Bytes) × (get s h ≡ ok bytes) × (length bytes ≡ n))
  unfolding verify_object get
  verify_object-get s h n = elim (Option-cases (Map.get s h)) [
    | inl absent ↦ (λ e. ground arith, λ (b, e, z). ground arith)
    | inr (bytes, there) ↦ (λ e. (bytes, ground arith, ground arith), λ (b, e, z). ground arith)
  ]

  put-read :
      (s : Files) (bytes : Bytes)
      → NoCollision s bytes
      → get (put s bytes).1 (put s bytes).0 ≡ ok bytes
  unfolding put
  put-read s bytes distinct =
      let digest : (put s bytes).0 ≡ c.blake3 bytes = ground arith in
      ap (get (put s bytes).1) digest ∙ put-get s bytes (c.blake3 bytes) distinct ∙ ground arith
