-- ===== src/Manifest/Check.antt =====
-- `Manifest::validate_schema` and `validate` of crates/abra-core/src/manifest.rs.
use abra.Crates.{Crates}
use abra.Prelude.{
  ℕ, Bytes, ascii, Bool, true, false, not, ◌&&◌, ◌||◌, Option, none, some, List, [], ◌∷◌, any,
  length, ◌==◌, nat_eq, bytes_eq, ltb, leb, is_some, Result, ok, invalid, unsupported_spec, ◌>>=◌,
  ◌>>◌, refuse_if, ok_or, if◌then◌else◌,
}
use abra.Identity.{verify}
use abra.Time.Validate.{validate_time}
use abra.Canonical.Value.{Value, string, object, Fields, field, end, get_field, validate_value}
use abra.Capsule.Signed.{spec}
use abra.Cas.Tree.{bytes_lt}
use abra.Manifest.Schema.{Scope, Thumbnail, Label, Recipe, NativeBlobRef, Manifest}
use abra.Manifest.Text.{
  validate_text, reverse_dns, is_adapter, is_label_name, is_relative, is_absolute_uri,
}
use abra.Manifest.Encode.{manifest_fields, unsigned_bytes}

-- `if let Some(x) = o { check(x)? }`
abbrev pub if_some {ℓ} : {A : Type ℓ} → Option A → (A → Result (Unit {0})) → Result (Unit {0})
if_some none check = ok tt
if_some (some a) check = check a

abbrev pub each {ℓ} : {A : Type ℓ} → List A → (A → Result (Unit {0})) → Result (Unit {0})
each [] check = ok tt
each (x ∷ xs) check = do check x; each xs check

unfoldable pub check_texts : Manifest → Result (Unit {0})
check_texts m = do
  refuse_if (not (m.spec == spec)) (unsupported_spec "unsupported spec")
  refuse_if (not (reverse_dns m.kind) || ltb 128 (length m.kind)) (invalid "invalid manifest kind")
  validate_text m.title 1 512 true (invalid "invalid title")
  validate_time m.created_at
  if_some m.origin.name (λ x. validate_text x 0 80 false (invalid "invalid origin.name"))
  if_some m.origin.adapter (λ x. refuse_if (not (is_adapter x)) (invalid "invalid adapter name"))
  if_some m.summary (λ x. validate_text x 0 4096 false (invalid "invalid summary"))
  if_some m.link (λ x.
      refuse_if (ltb 4096 (length x) || not (is_absolute_uri x))
        (invalid "invalid absolute link URI"))

unfoldable pub check_thumbnail : Thumbnail → Result (Unit {0})
check_thumbnail t =
    refuse_if
      (not (
          t.media_type == ascii "image/png"
          || (t.media_type == ascii "image/jpeg" || t.media_type == ascii "image/webp"))
        || not (leb 1 t.bytes && leb t.bytes 524288))
      (invalid "invalid thumbnail")

unfoldable pub check_scope : Manifest → Scope → Result (Unit {0})
check_scope m Scope.full = do
  refuse_if (not (is_some m.capsule_id) || (not (is_some m.parents) || not (is_some m.files)))
      (invalid "full requires capsule_id, parents, and files")
  refuse_if (is_some m.provenance) (invalid "full forbids provenance")
check_scope m Scope.partial =
    refuse_if
      (is_some m.capsule_id
        || (is_some m.parents || (is_some m.labels || (is_some m.recipes || is_some m.native))))
      (invalid "partial contains full-only field")

-- Does a value occur twice?
unfoldable pub has_repeat : List ℕ → Bool
has_repeat [] = false
has_repeat (x ∷ xs) = any (λ y. y == x) xs || has_repeat xs

unfoldable pub check_parents : List ℕ → Result (Unit {0})
unfolding has_repeat
check_parents p = refuse_if (ltb 16 (length p) || has_repeat p) (invalid "invalid parents")

-- `Option<String>` in its derived order
abbrev pub value_lt : Option Bytes → Option Bytes → Bool
value_lt o none = false
value_lt none (some b) = true
value_lt (some a) (some b) = bytes_lt a b

unfoldable pub label_lt : Label → Label → Bool
label_lt a b = bytes_lt a.name b.name || (a.name == b.name && value_lt a.value b.value)

-- `prev.is_some_and(|p| p >= l)`
abbrev pub not_after : Option Label → Label → Bool
not_after none l = false
not_after (some p) l = not (label_lt p l)

unfoldable pub check_labels : Option Label → List Label → Result (Unit {0})
unfolding label_lt
check_labels prev [] = ok tt
check_labels prev (l ∷ ls) = do
  refuse_if (not (is_label_name l.name)) (invalid "invalid label name")
  if_some l.value (λ v. validate_text v 0 512 false (invalid "invalid label value"))
  refuse_if (not_after prev l) (invalid "labels not strictly sorted")
  check_labels (some l) ls

-- `windows(2).any(|x| x[0] >= x[1])`
unfoldable pub unsorted : List ℕ → Bool
unsorted [] = false
unsorted (x ∷ []) = false
unsorted (x ∷ (y ∷ xs)) = leb y x || unsorted (y ∷ xs)

unfoldable pub check_recipe : Recipe → Result (Unit {0})
unfolding unsorted
check_recipe r = do
  refuse_if (length r.argv == 0 || (ltb 256 (length r.argv) || not (is_relative r.cwd)))
      (invalid "invalid recipe")
  refuse_if (unsorted r.ports || any (λ p. p == 0) r.ports) (invalid "invalid recipe ports")
  if_some r.started_at validate_time

abbrev pub field_keys : Fields → List Bytes
field_keys end = []
field_keys (field k v m) = k ∷ field_keys m

unfoldable pub check_lists : Manifest → Result (Unit {0})
check_lists m = do
  if_some m.parents check_parents
  if_some m.labels
      (λ ls. do refuse_if (ltb 16 (length ls)) (invalid "too many labels"); check_labels none ls)
  if_some m.provenance
      (λ p. if_some p.turn (λ t. validate_text t 0 64 false (invalid "invalid turn")))
  if_some m.recipes
      (λ rs. do refuse_if (ltb 256 (length rs)) (invalid "too many recipes"); each rs check_recipe)
  if_some m.native (λ ns. do
    refuse_if (ltb 32 (length ns)) (invalid "too many native refs")
    each ns (λ (n : NativeBlobRef).
        refuse_if (not (is_label_name n.role)) (invalid "invalid native role")))
  if_some m.extensions (λ e.
      refuse_if (any (λ k. not (reverse_dns k)) (field_keys e)) (invalid "invalid extension key"))

-- `Value::as_str`
abbrev pub as_string : Value → Option Bytes
as_string (string s) = some s
as_string v = none

abbrev pub is_partial : Scope → Bool
is_partial Scope.partial = true
is_partial Scope.full = false

-- `get("url").and_then(Value::as_str)`
abbrev pub text_of : Option Value → Option Bytes
text_of none = none
text_of (some v) = as_string v

unfoldable pub check_handoff : Manifest → Result (Unit {0})
check_handoff m = do
  refuse_if (not (is_partial m.scope)) (invalid "handoff must be partial")
  if_some m.link (λ link. do
    url ←
        ok_or (text_of (get_field m.payload (ascii "url")))
          (invalid "handoff link requires payload.url")
    refuse_if (not (is_absolute_uri url) || not (link == url))
        (invalid "handoff link must equal payload.url"))
  if_some (get_field m.payload (ascii "note")) (λ note. do
    s ← ok_or (as_string note) (invalid "handoff note must be a string")
    validate_text s 0 16384 false (invalid "invalid handoff note"))

unfoldable pub check_workspace : Manifest → Result (Unit {0})
check_workspace m = do
  refuse_if (is_partial m.scope) (invalid "workspace must be full")
  if_some (get_field m.payload (ascii "name")) (λ name. do
    s ← ok_or (as_string name) (invalid "workspace name must be a string")
    validate_text s 1 255 false (invalid "invalid workspace name"))
  if_some (get_field m.payload (ascii "default_cwd")) (λ cwd. do
    s ← ok_or (as_string cwd) (invalid "workspace default_cwd must be a string")
    refuse_if (not (is_relative s)) (invalid "invalid workspace default_cwd"))

abbrev pub handoff_kind : Bytes
handoff_kind = ascii "dev.abra.handoff.v1"

abbrev pub workspace_kind : Bytes
workspace_kind = ascii "dev.abra.workspace"

unfoldable pub check_kind : Manifest → Result (Unit {0})
check_kind m = do
  if m.kind == handoff_kind then check_handoff m else ok tt
  if m.kind == workspace_kind then check_workspace m else ok tt

module _ ⦃c : Crates⦄ where
  unfoldable pub validate_schema : Manifest → Result (Unit {0})
  validate_schema m = do
    check_texts m
    if_some m.thumbnail check_thumbnail
    check_scope m m.scope
    check_lists m
    check_kind m
    validate_value (object (manifest_fields m))

  -- `validate`
  unfoldable pub validate : Manifest → Result (Unit {0})
  validate m = do
    validate_schema m
    payload ← unsigned_bytes m
    verify m.origin.peer_id (ascii "snapshot") payload m.signature
