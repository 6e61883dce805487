-- ===== src/Capsule/Signed.antt =====
-- What the signed records of crates/abra-core/src/capsule.rs share.
use abra.Crates.{Crates}
use abra.Canonical.Value.{Value, number, string, object, Fields, Number, remove_field}
use abra.Canonical.Write.{to_vec}
use abra.Prelude.Int.{pos}
use abra.Prelude.{ℕ, Bytes, ascii, Result}

abbrev pub spec : Bytes
spec = ascii "abra/0.1"

-- `serde_json::to_value` of a `u64`, of a digest or key, and of a signature
abbrev pub u64 : ℕ → Value
u64 n = number (Number.int (pos n))

module _ ⦃c : Crates⦄ where
  abbrev pub hash32 : ℕ → Value
  hash32 h = string (c.hex32 h)

  abbrev pub sig64 : ℕ → Value
  sig64 s = string (c.hex64 s)

-- The canonical bytes of a record without its signature.
unfoldable pub unsigned : Fields → Result Bytes
unfolding to_vec remove_field
unsigned m = to_vec (object (remove_field m (ascii "sig")))
