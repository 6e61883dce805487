-- ===== src/Identity.antt =====
-- crates/abra-core/src/identity.rs: peer ids, signatures and what is signed.
use abra.Crates.{Crates}
use abra.Prelude.{ℕ, Bytes, ascii, ◌∷◌, ◌++◌, not, Result, bad_signature, ◌>>◌, refuse_if}

-- `abra-sig-v1 || NUL || domain || NUL || payload`
unfoldable pub signature_preimage : Bytes → Bytes → Bytes
signature_preimage domain payload = ascii "abra-sig-v1" ++ (0 ∷ (domain ++ (0 ∷ payload)))

-- The secret key of an `Identity`.
pub record Identity : Type 0 where
  pub signing : ℕ

module _ ⦃c : Crates⦄ where
  -- `PeerId::verify`
  unfoldable pub verify : ℕ → Bytes → Bytes → ℕ → Result (Unit {0})
  unfolding signature_preimage
  verify peer domain payload sig = do
    refuse_if (not (c.is_key peer)) (bad_signature "key")
    refuse_if (not (c.verify_strict peer (signature_preimage domain payload) sig))
        (bad_signature "signature")

  -- `Identity::peer_id` and `Identity::sign`
  unfoldable pub peer_id : Identity → ℕ
  peer_id id = c.verifying_key id.signing

  unfoldable pub sign : Identity → Bytes → Bytes → ℕ
  unfolding signature_preimage
  sign id domain payload = c.sign id.signing (signature_preimage domain payload)
