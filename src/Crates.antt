-- ===== src/Crates.antt =====
-- What the program takes from other crates: BLAKE3, Ed25519 and hex. They are parameters.
use abra.Prelude.{ℕ, Bytes, Bool, Option}

-- A digest, a key or a signature is a fixed number of bytes. It is the number whose big-endian
-- bytes it holds, so that equality and order are those of the byte arrays.
pub record Crates : Type 0 where
  -- `blake3::hash`
  pub blake3 : Bytes → ℕ
  -- `VerifyingKey::from_bytes(key).is_ok()`
  pub is_key : ℕ → Bool
  -- `VerifyingKey::verify_strict(message, signature).is_ok()`
  pub verify_strict : ℕ → Bytes → ℕ → Bool
  -- `SigningKey::verifying_key` and `SigningKey::sign`
  pub verifying_key : ℕ → ℕ
  pub sign : ℕ → Bytes → ℕ
  -- `hex::encode` of the bytes of a 16-byte, a 32-byte or a 64-byte value
  pub hex16 : ℕ → Bytes
  pub hex32 : ℕ → Bytes
  pub hex64 : ℕ → Bytes
  -- `hex::decode(text).ok()`
  pub hex_decode : Bytes → Option Bytes
