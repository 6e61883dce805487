-- ===== src/Restore.antt =====
-- `plan_native` of crates/abra-core/src/restore.rs: may the native state of a snapshot be loaded?
-- The required roles are a `BTreeSet`: a list without duplicates, in its order.
pub mod Eligible
use abra.Crates.{Crates}
use abra.Prelude.{
  ℕ, Bytes, Bool, true, false, not, ◌&&◌, Option, none, some, List, [], ◌∷◌, retain, ◌==◌, nat_eq,
  bytes_eq, list_beq, Error, invalid, Result, ok, err, ◌>>=◌, ◌>>◌, refuse_if, if◌then◌else◌,
}
use abra.Manifest.Schema.{Fingerprint, NativeBlobRef}
use abra.Cas.Store.{Files, verify_object}

pub data NativeStatus : Type 0 where
  eligible absent target_required roles_required fingerprint_mismatch missing_roles ambiguous_roles
        unavailable_objects :
      NativeStatus

pub record ObjectIssue : Type 0 where
  pub blob : ℕ
  pub error : Error

pub record NativeRestore : Type 0 where
  pub status : NativeStatus
  pub artifacts : List NativeBlobRef
  pub missing_roles : List Bytes
  pub unavailable_objects : List ObjectIssue

-- `PartialEq` of `Fingerprint`
unfoldable pub same_fingerprint : Fingerprint → Fingerprint → Bool
unfolding list_beq
same_fingerprint a b =
    a.os == b.os
    && (a.arch == b.arch
        && (a.hypervisor == b.hypervisor
            && (a.snapshot_format_major == b.snapshot_format_major
                && (a.cpu_template == b.cpu_template && a.cpu_identity == b.cpu_identity))))

unfoldable pub matching : Fingerprint → List NativeBlobRef → List NativeBlobRef
unfolding same_fingerprint
matching target native =
    retain (λ (a : NativeBlobRef). same_fingerprint a.fingerprint target) native

unfoldable pub with_role : Bytes → List NativeBlobRef → List NativeBlobRef
unfolding list_beq
with_role role entries = retain (λ (a : NativeBlobRef). a.role == role) entries

-- What the loop over the roles collects.
pub record Roles : Type 0 where
  pub ambiguous : Bool
  pub missing : List Bytes
  pub artifacts : List NativeBlobRef

unfoldable pub add_role : Bytes → List NativeBlobRef → Roles → Roles
add_role role [] g = record g { missing = role ∷ g.missing }
add_role role (a ∷ []) g = record g { artifacts = a ∷ g.artifacts }
add_role role (a ∷ (b ∷ entries)) g = record g { ambiguous = true }

unfoldable pub sort_roles : List NativeBlobRef → List Bytes → Roles
unfolding add_role
sort_roles entries [] = record { ambiguous = false; missing = []; artifacts = [] }
sort_roles entries (role ∷ roles) =
    add_role role (with_role role entries) (sort_roles entries roles)

abbrev pub is_empty {ℓ} : {A : Type ℓ} → List A → Bool
is_empty [] = true
is_empty (x ∷ xs) = false

module _ ⦃c : Crates⦄ where
  unfoldable pub check_artifact : Files → NativeBlobRef → Result (Unit {0})
  check_artifact files a = do
    bytes ← verify_object files a.blob
    refuse_if (not (bytes == a.bytes)) (invalid "native object size differs from manifest")

  abbrev pub add_issue : NativeBlobRef → Result (Unit {0}) → List ObjectIssue → List ObjectIssue
  add_issue a (ok u) issues = issues
  add_issue a (err e) issues = record { blob = a.blob; error = e } ∷ issues

  unfoldable pub find_issues : Files → List NativeBlobRef → List ObjectIssue
  find_issues files [] = []
  find_issues files (a ∷ artifacts) =
      add_issue a (check_artifact files a) (find_issues files artifacts)

  -- The status once each role has its artifacts.
  unfoldable pub finish_plan : Files → Roles → NativeRestore
  finish_plan files g =
      let plan : NativeRestore = record {
        status = NativeStatus.missing_roles;
        artifacts = g.artifacts;
        missing_roles = g.missing;
        unavailable_objects = [];
      } in
      let issues = find_issues files g.artifacts in
      if g.ambiguous
      then record plan { status = NativeStatus.ambiguous_roles }
      else if not (is_empty g.missing)
      then plan
      else record plan {
        status =
            if is_empty issues then NativeStatus.eligible else NativeStatus.unavailable_objects;
        unavailable_objects = issues;
      }

  abbrev pub early : NativeStatus → NativeRestore
  early status = record {
    status = status;
    artifacts = [];
    missing_roles = [];
    unavailable_objects = [];
  }

  unfoldable pub plan_for : Files → List NativeBlobRef → Fingerprint → List Bytes → NativeRestore
  plan_for files native target roles =
      if is_empty roles
      then early NativeStatus.roles_required
      else if is_empty (matching target native)
      then early NativeStatus.fingerprint_mismatch
      else finish_plan files (sort_roles (matching target native) roles)

  unfoldable pub plan_native :
      Files → List NativeBlobRef → Option Fingerprint → List Bytes → NativeRestore
  plan_native files native none roles =
      if is_empty native then early NativeStatus.absent else early NativeStatus.target_required
  plan_native files native (some target) roles =
      if is_empty native then early NativeStatus.absent else plan_for files native target roles
