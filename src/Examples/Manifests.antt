-- ===== src/Examples/Manifests.antt =====
-- Manifests (crates/abra-core/src/manifest.rs) that are accepted and refused.
use abra.Examples.Toy.{toy}
use abra.Prelude.{◌≡◌, ◌⊎◌, refl, ascii, none, some, [], ◌∷◌, ok, err, invalid, list_beq}
use abra.Canonical.Value.{end, validate_value, get_field}
use abra.Time.Validate.{validate_time}
use abra.Cas.Tree.{bytes_lt}
use abra.Manifest.Schema.{Scope, Manifest}
use abra.Manifest.Text.{
  validate_text, reverse_dns, is_adapter, is_label_name, is_relative, is_absolute_uri,
}
use abra.Manifest.Encode.{
  label_value, recipe_value, fingerprint_value, origin_value, thumbnail_value, provenance_value,
  native_value, full_fields, manifest_fields,
}
use abra.Manifest.Check.{
  check_texts, check_thumbnail, check_scope, check_parents, check_labels, check_recipe, check_lists,
  check_handoff, check_workspace, check_kind, validate_schema,
}
use abra.Manifest.Scoped.{IsFull, IsPartial, validate_schema-IsFull}

abbrev pub workspace : Manifest
workspace = record {
  spec = ascii "abra/0.1";
  scope = Scope.full;
  kind = ascii "dev.abra.workspace";
  title = ascii "notes";
  origin = record { peer_id = 5; name = some (ascii "laptop"); adapter = none };
  created_at = ascii "2026-01-01T12:00:00.000Z";
  summary = none;
  link = some (ascii "https://abra.dev");
  thumbnail = none;
  capsule_id = some 11;
  parents = some (21 ∷ (22 ∷ []));
  labels = some (
      record { name = ascii "a"; value = none } ∷ (record { name = ascii "b"; value = none } ∷ []));
  provenance = none;
  files = some 31;
  recipes = some (
      record {
        argv = ascii "make" ∷ [];
        cwd = ascii ".";
        env = [];
        ports = 80 ∷ (443 ∷ []);
        started_at = none;
      }
      ∷ []);
  native = none;
  payload = end;
  extensions = none;
  signature = 1005;
}

-- All that a call of `validate_schema` runs.
unfoldable pub manifest_code : Unit {0}
unfolding validate_schema check_texts check_thumbnail check_scope check_parents check_labels
    check_recipe check_lists check_handoff check_workspace check_kind validate_text reverse_dns
    is_adapter is_label_name is_relative is_absolute_uri validate_time validate_value get_field
    label_value recipe_value fingerprint_value origin_value thumbnail_value provenance_value
    native_value full_fields manifest_fields list_beq bytes_lt
manifest_code = tt

workspace_valid : validate_schema workspace ≡ ok tt
unfolding manifest_code
workspace_valid = refl

validate_schema-IsFull_example : IsFull workspace ⊎ IsPartial workspace
validate_schema-IsFull_example = validate_schema-IsFull workspace workspace_valid

repeated_parent : check_parents (21 ∷ (22 ∷ (21 ∷ []))) ≡ err (invalid "invalid parents")
unfolding check_parents
repeated_parent = refl
