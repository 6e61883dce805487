-- ===== src/Capsule/LeaseRecord.antt =====
-- `LeaseRecord` of crates/abra-core/src/capsule.rs.
use abra.Crates.{Crates}
use abra.Identity.{Identity, verify, sign}
use abra.Time.Validate.{validate_time}
use abra.Capsule.Signed.{spec, u64, hash32, sig64, unsigned}
use abra.Canonical.Value.{string, object, Fields, end, field}
use abra.Canonical.Write.{to_vec}
use abra.Prelude.{
  ℕ, Bytes, ascii, Bool, true, false, not, ◌||◌, ◌==◌, nat_eq, bytes_eq, list_beq, Result, ok,
  invalid, ◌>>=◌, ◌>>◌, refuse_if,
}

pub data LeaseMode : Type 0 where
  grant refresh transfer takeover : LeaseMode

pub record LeaseRecord : Type 0 where
  pub spec : Bytes
  pub record_type : Bytes
  pub capsule_id : ℕ
  pub holder : ℕ
  pub epoch : ℕ
  pub mode : LeaseMode
  pub acquired_at : Bytes
  pub expires_at : Bytes
  pub prev_hash : ℕ
  pub sig : ℕ

-- `#[serde(rename_all = "lowercase")]`
abbrev pub mode_name : LeaseMode → Bytes
mode_name LeaseMode.grant = ascii "grant"
mode_name LeaseMode.refresh = ascii "refresh"
mode_name LeaseMode.transfer = ascii "transfer"
mode_name LeaseMode.takeover = ascii "takeover"

-- `==` on modes
abbrev pub is_mode : LeaseMode → LeaseMode → Bool
is_mode LeaseMode.grant LeaseMode.grant = true
is_mode LeaseMode.refresh LeaseMode.refresh = true
is_mode LeaseMode.transfer LeaseMode.transfer = true
is_mode LeaseMode.takeover LeaseMode.takeover = true
is_mode _ _ = false

module _ ⦃c : Crates⦄ where
  -- `serde_json::to_value`, by the names that serde gives the fields
  unfoldable pub fields : LeaseRecord → Fields
  fields r = field (ascii "spec") (string r.spec) (
      field (ascii "type") (string r.record_type) (
        field (ascii "capsule_id") (hash32 r.capsule_id) (
          field (ascii "holder") (hash32 r.holder) (
            field (ascii "epoch") (u64 r.epoch) (
              field (ascii "mode") (string (mode_name r.mode)) (
                field (ascii "acquired_at") (string r.acquired_at) (
                  field (ascii "expires_at") (string r.expires_at) (
                    field (ascii "prev_hash") (hash32 r.prev_hash)
                      (field (ascii "sig") (sig64 r.sig) end)))))))))

  unfoldable pub bytes : LeaseRecord → Result Bytes
  unfolding to_vec fields
  bytes r = to_vec (object (fields r))

  unfoldable pub hash : LeaseRecord → Result ℕ
  unfolding bytes
  hash r = do b ← bytes r; ok (c.blake3 b)

  unfoldable pub verify_with : LeaseRecord → ℕ → Result (Unit {0})
  unfolding unsigned fields verify validate_time list_beq
  verify_with r p = do
    refuse_if (not (r.spec == spec) || (not (r.record_type == ascii "lease") || r.epoch == 0))
        (invalid "invalid lease schema")
    validate_time r.acquired_at
    validate_time r.expires_at
    payload ← unsigned (fields r)
    verify p (ascii "lease") payload r.sig

  -- `LeaseRecord::new`
  unfoldable pub create : ℕ → ℕ → ℕ → LeaseMode → Bytes → Bytes → ℕ → Identity → Result LeaseRecord
  unfolding unsigned fields sign
  create capsule_id holder epoch mode acquired_at expires_at prev_hash signer = do
    let x : LeaseRecord = record {
      spec = spec;
      record_type = ascii "lease";
      capsule_id = capsule_id;
      holder = holder;
      epoch = epoch;
      mode = mode;
      acquired_at = acquired_at;
      expires_at = expires_at;
      prev_hash = prev_hash;
      sig = 0;
    }
    payload ← unsigned (fields x)
    ok (record x { sig = sign signer (ascii "lease") payload })
