-- ===== src/Net/Auth/Signing.antt =====
-- What the signed records of crates/abra-net/src/auth.rs share.
use abra.Crates.{Crates}
use abra.Canonical.Value.{
  Value, bool, string, array, object, Items, nil, cons, Fields, end, field, remove_field,
}
use abra.Canonical.Write.{to_vec}
use abra.Capsule.Signed.{hash32}
use abra.Prelude.{
  ℕ, Bytes, ascii, Option, none, some, List, [], ◌∷◌, length, not, ◌==◌, nat_eq, Error, Result, ok,
  ◌>>=◌, ◌>>◌, refuse_if, ok_or, min, ◌+◌, ◌-◌, ◌^◌,
}
use abra.Net.Auth.Scopes.{Scopes}

abbrev pub clock_skew_ms : ℕ
clock_skew_ms = 60000

-- `u64::saturating_add`
abbrev pub plus : ℕ → ℕ → ℕ
plus a b = min (a + b) (2 ^ 64 - 1)

-- `unsigned`: the canonical bytes of a record without its signature
unfoldable pub unsigned : Fields → Bytes → Result Bytes
unfolding to_vec remove_field
unsigned m name = to_vec (object (remove_field m name))

-- `serde_json::to_value` of a `Vec<String>`
unfoldable pub strings : List Bytes → Items
strings [] = nil
strings (s ∷ list) = cons (string s) (strings list)

unfoldable pub scopes_value : Scopes → Value
unfolding strings
scopes_value s = object (
    field (ascii "capsules") (array (strings s.capsules)) (
      field (ascii "kinds") (array (strings s.kinds)) (
        field (ascii "send") (bool s.send) (
          field (ascii "receive") (bool s.receive) (
            field (ascii "lease_acquire") (bool s.lease_acquire)
              (field (ascii "lease_takeover") (bool s.lease_takeover) end))))))

-- A field that is skipped where it is `None`.
unfoldable pub optional : Bytes → Option Value → Fields → Fields
optional name none rest = rest
optional name (some v) rest = field name v rest

abbrev pub text_value : Option Bytes → Option Value
text_value none = none
text_value (some s) = some (string s)

module _ ⦃c : Crates⦄ where
  abbrev pub key_value : Option ℕ → Option Value
  key_value none = none
  key_value (some k) = some (hash32 k)

  -- `hex::decode(id)` of an id of 16 bytes
  unfoldable pub decode_id : Bytes → Error → Error → Result Bytes
  decode_id id bad wrong_size = do
    payload ← ok_or (c.hex_decode id) bad
    refuse_if (not (length payload == 16)) wrong_size
    ok payload
