-- ===== src/Canonical/Value.antt =====
-- `serde_json::Value`, and the integer profile of crates/abra-core/src/canonical.rs.
use abra.Prelude.Int.{ℤ, pos, negsuc, is_i64, ltb_ℤ}
use abra.Prelude.{
  ℕ, ◌+◌, Bytes, ascii, Bool, true, false, ◌&&◌, ◌||◌, Option, none, some, ◌==◌, nat_eq, bytes_eq,
  list_beq, Result, ok, invalid, ◌>>=◌, ◌>>◌, refuse_if, ok_or, if◌then◌else◌,
}

-- A number is an integer, or a float that the profile refuses whatever it is.
pub data Number : Type 0 where
  int : ℤ → Number
  float : ℕ → Number

mutual
  pub data Value : Type 0 where
    null : Value
    bool : Bool → Value
    number : Number → Value
    string : Bytes → Value
    array : Items → Value
    object : Fields → Value

  pub data Items : Type 0 where
    nil : Items
    cons : Value → Items → Items

  pub data Fields : Type 0 where
    end : Fields
    field : Bytes → Value → Fields → Fields

-- `Number::as_i64`
unfoldable pub as_i64 : Number → Option ℤ
as_i64 (int z) = if is_i64 z then some z else none
as_i64 (float f) = none

abbrev pub max_safe : ℕ
max_safe = 9007199254740991

-- -MAX, the lower limit below `payload` and `extensions`
abbrev pub lower : Bool → ℤ
lower true = negsuc 9007199254740990
lower false = pos 0

unfoldable pub check_number : Number → Bool → Result (Unit {0})
unfolding as_i64
check_number n negatives = do
  i ← ok_or (as_i64 n) (invalid "numbers must be integers in the safe range")
  refuse_if (ltb_ℤ (pos max_safe) i || ltb_ℤ i (lower negatives))
      (invalid "integer outside Abra-CJSON range")

-- `depth == 0 && (k == "payload" || k == "extensions")`
unfoldable pub is_slot : ℕ → Bytes → Bool
unfolding list_beq
is_slot depth k = depth == 0 && (k == ascii "payload" || k == ascii "extensions")

unfoldable mutual
  unfolding check_number is_slot

  pub validate_at : Value → Bool → ℕ → Result (Unit {0})
  validate_at null negatives depth = ok tt
  validate_at (bool b) negatives depth = ok tt
  validate_at (number n) negatives depth = check_number n negatives
  validate_at (string s) negatives depth = ok tt
  validate_at (array a) negatives depth = validate_items a negatives (depth + 1)
  validate_at (object m) negatives depth = validate_fields m negatives depth

  pub validate_items : Items → Bool → ℕ → Result (Unit {0})
  validate_items nil negatives depth = ok tt
  validate_items (cons x xs) negatives depth = do
    validate_at x negatives depth
    validate_items xs negatives depth

  pub validate_fields : Fields → Bool → ℕ → Result (Unit {0})
  validate_fields end negatives depth = ok tt
  validate_fields (field k x m) negatives depth = do
    validate_at x (negatives || is_slot depth k) (depth + 1)
    validate_fields m negatives depth

unfoldable pub validate_value : Value → Result (Unit {0})
unfolding validate_at
validate_value v = validate_at v false 0

-- `Map::remove` of an object's map, and `Map::get`
unfoldable pub remove_field : Fields → Bytes → Fields
unfolding list_beq
remove_field end k = end
remove_field (field j v m) k =
    let rest = remove_field m k in if j == k then rest else field j v rest

unfoldable pub get_field : Fields → Bytes → Option Value
unfolding list_beq
get_field end k = none
get_field (field j v m) k = if j == k then some v else get_field m k
