-- ===== src/Canonical/Write.antt =====
-- The writer of crates/abra-core/src/canonical.rs.
use abra.Prelude.Int.{ℤ, pos, negsuc}
use abra.Prelude.{
  ℕ, zero, suc, ◌+◌, ◌/◌, ◌%◌, ◌≡◌, refl, Bytes, ascii, Bool, true, false, ◌&&◌, ◌||◌, List, [],
  ◌∷◌, ◌++◌, ◌==◌, nat_eq, ltb, Result, ok, invalid, ◌>>=◌, ◌>>◌, ok_or, if◌then◌else◌,
}
use abra.Canonical.Value.{
  Number, Value, null, bool, number, string, array, object, Items, nil, cons, Fields, end, field,
  as_i64, validate_value,
}

-- The decimal digits of a number, most significant first; an `i64` has 19 at most.
unfoldable pub digits : ℕ → ℕ → Bytes
digits zero n = []
digits (suc fuel) n =
    let rest = digits fuel (n / 10) in
    if ltb n 10 then (48 + n) ∷ [] else rest ++ ((48 + n % 10) ∷ [])

-- `i64::to_string`
unfoldable pub show_i64 : ℤ → Bytes
unfolding digits
show_i64 (pos n) = digits 19 n
show_i64 (negsuc n) = b'-' ∷ digits 19 (suc n)

-- One lowercase hexadecimal digit.
abbrev pub hex_digit : ℕ → ℕ
hex_digit n = if ltb n 10 then 48 + n else 87 + n

-- What `string` writes for one byte: a character above ASCII is written as its bytes are.
unfoldable pub escape : ℕ → Bytes
escape c =
    if c == 34
    then 92 ∷ 34 ∷ []
    else if c == 92
    then 92 ∷ 92 ∷ []
    else if c == 8
    then 92 ∷ b'b' ∷ []
    else if c == 9
    then 92 ∷ b't' ∷ []
    else if c == 10
    then 92 ∷ b'n' ∷ []
    else if c == 12
    then 92 ∷ b'f' ∷ []
    else if c == 13
    then 92 ∷ b'r' ∷ []
    else if ltb c 32
    then 92 ∷ b'u' ∷ b'0' ∷ b'0' ∷ hex_digit (c / 16) ∷ hex_digit (c % 16) ∷ []
    else c ∷ []

unfoldable pub escape_all : Bytes → Bytes
unfolding escape
escape_all [] = []
escape_all (c ∷ s) = escape c ++ escape_all s

unfoldable pub write_string : Bytes → Bytes
unfolding escape_all
write_string s = 34 ∷ (escape_all s ++ (34 ∷ []))

-- `a.as_bytes().cmp(b.as_bytes())` is not greater.
unfoldable pub bytes_le : Bytes → Bytes → Bool
bytes_le [] ys = true
bytes_le (x ∷ xs) [] = false
bytes_le (x ∷ xs) (y ∷ ys) = ltb x y || (x == y && bytes_le xs ys)

-- A field as it is written: its key, and the bytes of its value.
abbrev pub Written : Type 0
Written = Bytes × Bytes

-- `keys.sort_by`, which is stable.
unfoldable pub insert_sorted : Written → List Written → List Written
unfolding bytes_le
insert_sorted w [] = w ∷ []
insert_sorted w (x ∷ xs) = if bytes_le w.0 x.0 then w ∷ (x ∷ xs) else x ∷ insert_sorted w xs

unfoldable pub sort : List Written → List Written
unfolding insert_sorted
sort [] = []
sort (w ∷ ws) = insert_sorted w (sort ws)

unfoldable pub write_members : Bool → List Written → Bytes
unfolding write_string
write_members first [] = []
write_members first ((k, v) ∷ ws) =
    (if first then [] else b',' ∷ []) ++ (write_string k ++ (b':' ∷ (v ++ write_members false ws)))

-- The only error of the writer is the one for a number, so that it may write the values of an
-- object before it sorts them.
unfoldable mutual
  unfolding as_i64 show_i64 write_string sort write_members

  pub write : Value → Result Bytes
  write null = ok (ascii "null")
  write (bool true) = ok (ascii "true")
  write (bool false) = ok (ascii "false")
  write (number n) = do i ← ok_or (as_i64 n) (invalid "non-integer"); ok (show_i64 i)
  write (string s) = ok (write_string s)
  write (array a) = do items ← write_items true a; ok (b'[' ∷ (items ++ (b']' ∷ [])))
  write (object m) = do
    fields ← write_fields m
    ok (b'{' ∷ (write_members true (sort fields) ++ (b'}' ∷ [])))

  pub write_items : Bool → Items → Result Bytes
  write_items first nil = ok []
  write_items first (cons x xs) = do
    v ← write x
    rest ← write_items false xs
    ok ((if first then [] else b',' ∷ []) ++ (v ++ rest))

  pub write_fields : Fields → Result (List Written)
  write_fields end = ok []
  write_fields (field k x m) = do v ← write x; rest ← write_fields m; ok ((k, v) ∷ rest)

-- `to_vec` of a value that serde has made.
unfoldable pub to_vec : Value → Result Bytes
unfolding write validate_value
to_vec v = do validate_value v; write v

sorts_keys :
    to_vec (object (field (ascii "b") null (field (ascii "a") (number (Number.int (pos 120))) end)))
    ≡ ok (ascii "{\"a\":120,\"b\":null}")
unfolding to_vec
sorts_keys = refl
