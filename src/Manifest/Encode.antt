-- ===== src/Manifest/Encode.antt =====
-- `serde_json::to_value` of a manifest (crates/abra-core/src/manifest.rs): a field that is `None` or
-- that its type skips when empty is left out.
use abra.Crates.{Crates}
use abra.Prelude.{Bytes, ascii, Option, none, some, List, [], ◌∷◌, Result}
use abra.Prelude.Map.{Map}
use abra.Canonical.Value.{
  Value, string, array, object, null, Items, nil, cons, Fields, field, end, remove_field,
}
use abra.Canonical.Write.{to_vec}
use abra.Capsule.Signed.{u64, hash32, sig64}
use abra.Manifest.Schema.{
  Scope, Origin, Thumbnail, Label, Provenance, Recipe, Fingerprint, NativeBlobRef, Manifest,
}

abbrev pub scope_name : Scope → Bytes
scope_name Scope.full = ascii "full"
scope_name Scope.partial = ascii "partial"

-- `skip_serializing_if = "Option::is_none"`
abbrev pub optional {ℓ} : {A : Type ℓ} → Bytes → (A → Value) → Option A → Fields → Fields
optional k f none m = m
optional k f (some a) m = field k (f a) m

abbrev pub items {ℓ} : {A : Type ℓ} → (A → Value) → List A → Items
items f [] = nil
items f (x ∷ xs) = cons (f x) (items f xs)

abbrev pub list {ℓ} : {A : Type ℓ} → (A → Value) → List A → Value
list f xs = array (items f xs)

-- `skip_serializing_if = "Vec::is_empty"`
abbrev pub unless_empty {ℓ} : {A : Type ℓ} → Bytes → (A → Value) → List A → Fields → Fields
unless_empty k f [] m = m
unless_empty k f (x ∷ xs) m = field k (list f (x ∷ xs)) m

abbrev pub env_fields : Map Bytes Bytes → Fields
env_fields [] = end
env_fields ((k, v) ∷ env) = field k (string v) (env_fields env)

-- `skip_serializing_if = "BTreeMap::is_empty"`
abbrev pub env_field : Map Bytes Bytes → Fields → Fields
env_field [] m = m
env_field (e ∷ env) m = field (ascii "env") (object (env_fields (e ∷ env))) m

-- `Label::value` has no skip.
abbrev pub nullable : Option Bytes → Value
nullable none = null
nullable (some s) = string s

unfoldable pub label_value : Label → Value
label_value l =
    object (field (ascii "name") (string l.name) (field (ascii "value") (nullable l.value) end))

unfoldable pub recipe_value : Recipe → Value
recipe_value r = object (
    field (ascii "argv") (list string r.argv) (
      field (ascii "cwd") (string r.cwd) (
        env_field r.env (
          unless_empty (ascii "ports") u64 r.ports
            (optional (ascii "started_at") string r.started_at end)))))

unfoldable pub fingerprint_value : Fingerprint → Value
fingerprint_value f = object (
    field (ascii "os") (string f.os) (
      field (ascii "arch") (string f.arch) (
        field (ascii "hypervisor") (string f.hypervisor) (
          field (ascii "snapshot_format_major") (u64 f.snapshot_format_major) (
            field (ascii "cpu_template") (string f.cpu_template)
              (field (ascii "cpu_identity") (string f.cpu_identity) end))))))

module _ ⦃c : Crates⦄ where
  unfoldable pub origin_value : Origin → Value
  origin_value o = object (
      field (ascii "peer_id") (hash32 o.peer_id)
        (optional (ascii "name") string o.name (optional (ascii "adapter") string o.adapter end)))

  unfoldable pub thumbnail_value : Thumbnail → Value
  thumbnail_value t = object (
      field (ascii "blob") (hash32 t.blob) (
        field (ascii "media_type") (string t.media_type) (field (ascii "bytes") (u64 t.bytes) end)))

  unfoldable pub provenance_value : Provenance → Value
  provenance_value p = object (
      field (ascii "capsule_id") (hash32 p.capsule_id) (
        field (ascii "snapshot_id") (hash32 p.snapshot_id)
          (optional (ascii "turn") string p.turn end)))

  unfoldable pub native_value : NativeBlobRef → Value
  native_value n = object (
      field (ascii "role") (string n.role) (
        field (ascii "blob") (hash32 n.blob) (
          field (ascii "bytes") (u64 n.bytes)
            (field (ascii "fingerprint") (fingerprint_value n.fingerprint) end))))

  unfoldable pub full_fields : Manifest → Fields → Fields
  full_fields m rest = optional (ascii "capsule_id") hash32 m.capsule_id (
      optional (ascii "parents") (list hash32) m.parents (
        optional (ascii "labels") (list label_value) m.labels (
          optional (ascii "provenance") provenance_value m.provenance (
            optional (ascii "files") hash32 m.files (
              optional (ascii "recipes") (list recipe_value) m.recipes
                (optional (ascii "native") (list native_value) m.native rest))))))

  unfoldable pub manifest_fields : Manifest → Fields
  manifest_fields m = field (ascii "spec") (string m.spec) (
      field (ascii "scope") (string (scope_name m.scope)) (
        field (ascii "kind") (string m.kind) (
          field (ascii "title") (string m.title) (
            field (ascii "origin") (origin_value m.origin) (
              field (ascii "created_at") (string m.created_at) (
                optional (ascii "summary") string m.summary (
                  optional (ascii "link") string m.link (
                    optional (ascii "thumbnail") thumbnail_value m.thumbnail (
                      full_fields m (
                        field (ascii "payload") (object m.payload) (
                          optional (ascii "extensions") object m.extensions
                            (field (ascii "signature") (sig64 m.signature) end))))))))))))

  -- `unsigned_bytes`
  unfoldable pub unsigned_bytes : Manifest → Result Bytes
  unsigned_bytes m = to_vec (object (remove_field (manifest_fields m) (ascii "signature")))
