-- ===== src/Capsule/LabelOp.antt =====
-- `LabelOp` of crates/abra-core/src/capsule.rs.
use abra.Crates.{Crates}
use abra.Identity.{Identity, verify, sign, peer_id}
use abra.Time.Validate.{validate_time}
use abra.Capsule.Signed.{spec, u64, hash32, sig64, unsigned}
use abra.Canonical.Value.{string, object, Fields, end, field}
use abra.Canonical.Write.{to_vec}
use abra.Prelude.{
  ℕ, Bytes, ascii, not, ◌||◌, ◌==◌, nat_eq, bytes_eq, list_beq, Result, ok, invalid, ◌>>=◌, ◌>>◌,
  refuse_if,
}

pub record LabelOp : Type 0 where
  pub spec : Bytes
  pub record_type : Bytes
  pub capsule_id : ℕ
  pub seq : ℕ
  pub op : Bytes
  pub name : Bytes
  pub snapshot_id : ℕ
  pub lease_epoch : ℕ
  pub at : Bytes
  pub by : ℕ
  pub sig : ℕ

module _ ⦃c : Crates⦄ where
  -- `serde_json::to_value`, by the names that serde gives the fields
  unfoldable pub fields : LabelOp → Fields
  fields o = field (ascii "spec") (string o.spec) (
      field (ascii "type") (string o.record_type) (
        field (ascii "capsule_id") (hash32 o.capsule_id) (
          field (ascii "seq") (u64 o.seq) (
            field (ascii "op") (string o.op) (
              field (ascii "name") (string o.name) (
                field (ascii "snapshot_id") (hash32 o.snapshot_id) (
                  field (ascii "lease_epoch") (u64 o.lease_epoch) (
                    field (ascii "at") (string o.at) (
                      field (ascii "by") (hash32 o.by)
                        (field (ascii "sig") (sig64 o.sig) end))))))))))

  unfoldable pub bytes : LabelOp → Result Bytes
  unfolding to_vec fields
  bytes o = to_vec (object (fields o))

  unfoldable pub verify_label : LabelOp → Result (Unit {0})
  unfolding unsigned fields verify validate_time list_beq
  verify_label o = do
    refuse_if
        (not (o.spec == spec)
          || (not (o.record_type == ascii "label-op") || not (o.op == ascii "set")))
        (invalid "invalid label-op schema")
    validate_time o.at
    payload ← unsigned (fields o)
    verify o.by (ascii "label") payload o.sig

  -- `LabelOp::new`
  unfoldable pub create : ℕ → ℕ → Bytes → ℕ → ℕ → Bytes → Identity → Result LabelOp
  unfolding unsigned fields sign peer_id
  create capsule_id seq name snapshot_id lease_epoch at signer = do
    let x : LabelOp = record {
      spec = spec;
      record_type = ascii "label-op";
      capsule_id = capsule_id;
      seq = seq;
      op = ascii "set";
      name = name;
      snapshot_id = snapshot_id;
      lease_epoch = lease_epoch;
      at = at;
      by = peer_id signer;
      sig = 0;
    }
    payload ← unsigned (fields x)
    ok (record x { sig = sign signer (ascii "label") payload })
