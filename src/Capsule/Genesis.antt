-- ===== src/Capsule/Genesis.antt =====
-- `Genesis` of crates/abra-core/src/capsule.rs.
use abra.Crates.{Crates}
use abra.Identity.{Identity, verify, sign, peer_id}
use abra.Time.Validate.{validate_time}
use abra.Manifest.Text.{validate_text, reverse_dns}
use abra.Capsule.Signed.{spec, hash32, sig64, unsigned}
use abra.Canonical.Value.{string, object, Fields, end, field}
use abra.Canonical.Write.{to_vec}
use abra.Prelude.{
  ℕ, Bytes, ascii, true, not, ◌||◌, ◌==◌, ltb, length, nat_eq, bytes_eq, list_beq, Result, ok,
  invalid, ◌>>=◌, ◌>>◌, refuse_if,
}

pub record Genesis : Type 0 where
  pub spec : Bytes
  pub record_type : Bytes
  pub capsule_id : ℕ
  pub created_at : Bytes
  pub created_by : ℕ
  pub kind : Bytes
  pub title : Bytes
  pub sig : ℕ

module _ ⦃c : Crates⦄ where
  -- `serde_json::to_value`, by the names that serde gives the fields
  unfoldable pub fields : Genesis → Fields
  fields g = field (ascii "spec") (string g.spec) (
      field (ascii "type") (string g.record_type) (
        field (ascii "capsule_id") (hash32 g.capsule_id) (
          field (ascii "created_at") (string g.created_at) (
            field (ascii "created_by") (hash32 g.created_by) (
              field (ascii "kind") (string g.kind) (
                field (ascii "title") (string g.title) (field (ascii "sig") (sig64 g.sig) end)))))))

  unfoldable pub bytes : Genesis → Result Bytes
  unfolding to_vec fields
  bytes g = to_vec (object (fields g))

  unfoldable pub hash : Genesis → Result ℕ
  unfolding bytes
  hash g = do b ← bytes g; ok (c.blake3 b)

  unfoldable pub verify_genesis : Genesis → Result (Unit {0})
  unfolding unsigned fields verify validate_time validate_text reverse_dns list_beq
  verify_genesis g = do
    refuse_if (not (g.spec == spec) || not (g.record_type == ascii "capsule-genesis"))
        (invalid "invalid genesis schema")
    validate_time g.created_at
    validate_text g.title 1 512 true (invalid "genesis title")
    refuse_if (ltb 128 (length g.kind) || not (reverse_dns g.kind)) (invalid "invalid genesis kind")
    payload ← unsigned (fields g)
    verify g.created_by (ascii "genesis") payload g.sig

  -- `Genesis::new`
  unfoldable pub create : ℕ → Bytes → Bytes → Bytes → Identity → Result Genesis
  unfolding unsigned fields sign peer_id
  create id at kind title creator = do
    let x : Genesis = record {
      spec = spec;
      record_type = ascii "capsule-genesis";
      capsule_id = id;
      created_at = at;
      created_by = peer_id creator;
      kind = kind;
      title = title;
      sig = 0;
    }
    payload ← unsigned (fields x)
    ok (record x { sig = sign creator (ascii "genesis") payload })
