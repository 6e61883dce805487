-- ===== src/Manifest/Scoped.antt =====
-- What an accepted manifest of crates/abra-core/src/manifest.rs holds, by its scope.
use abra.Crates.{Crates}
use abra.Prelude.{
  ℕ, ◌≤◌, ◌≡◌, sym, ap, ◌∙◌, ◌⊎◌, inl, inr, refl, true, false, not, Option, none, some, List,
  length, ◌==◌, bytes_eq, arith, ok, invalid, refuse_if, >>-parts, Option-cases, if◌then◌else◌,
}
use abra.Manifest.Schema.{Scope, Manifest}
use abra.Manifest.Check.{
  check_scope, check_parents, check_lists, check_handoff, check_workspace, check_kind, handoff_kind,
  workspace_kind, if_some, is_partial, has_repeat, validate_schema,
}

-- The parts of a capsule's snapshot.
pub record IsFull (m : Manifest) : Type 0 where
  pub scope : m.scope ≡ Scope.full
  pub capsule_id : (id : ℕ) × (m.capsule_id ≡ some id)
  pub parents : (ps : List ℕ) × (m.parents ≡ some ps) × (length ps ≤ 16) × (has_repeat ps ≡ false)
  pub files : (root : ℕ) × (m.files ≡ some root)
  pub provenance : m.provenance ≡ none
  pub kind : (m.kind == handoff_kind) ≡ false

-- A snapshot that stands by itself.
pub record IsPartial (m : Manifest) : Type 0 where
  pub scope : m.scope ≡ Scope.partial
  pub capsule_id : m.capsule_id ≡ none
  pub parents : m.parents ≡ none
  pub labels : m.labels ≡ none
  pub recipes : m.recipes ≡ none
  pub native : m.native ≡ none
  pub kind : (m.kind == workspace_kind) ≡ false

scope-cases : (s : Scope) → (s ≡ Scope.full) ⊎ (s ≡ Scope.partial)
scope-cases Scope.full = inl refl
scope-cases Scope.partial = inr refl

module _ ⦃c : Crates⦄ where
  schema-parts :
      (m : Manifest)
      → validate_schema m ≡ ok tt
      → (check_scope m m.scope ≡ ok tt) × (check_lists m ≡ ok tt) × (check_kind m ≡ ok tt)
  unfolding validate_schema
  schema-parts m h = ground arith

lists-parents :
    (m : Manifest) (ps : List ℕ)
    → m.parents ≡ some ps
    → check_lists m ≡ ok tt
    → check_parents ps ≡ ok tt
unfolding check_lists
lists-parents m ps e h =
    ap (λ (o : Option (List ℕ)). if_some o check_parents) (sym e)
    ∙ (>>-parts (if_some m.parents check_parents) _ h).0

parents-bounds :
    (ps : List ℕ) → check_parents ps ≡ ok tt → (length ps ≤ 16) × (has_repeat ps ≡ false)
unfolding check_parents
parents-bounds ps h = ground arith

handoff-scope : (m : Manifest) → check_handoff m ≡ ok tt → is_partial m.scope ≡ true
unfolding check_handoff
handoff-scope m h =
    let first =
      (>>-parts (refuse_if (not (is_partial m.scope)) (invalid "handoff must be partial")) _ h).0 in
    ground arith

workspace-scope : (m : Manifest) → check_workspace m ≡ ok tt → is_partial m.scope ≡ false
unfolding check_workspace
workspace-scope m h =
    let first =
      (>>-parts (refuse_if (is_partial m.scope) (invalid "workspace must be full")) _ h).0 in
    ground arith

kind-parts :
    (m : Manifest)
    → check_kind m ≡ ok tt
    → ((m.kind == handoff_kind) ≡ true → check_handoff m ≡ ok tt)
      × ((m.kind == workspace_kind) ≡ true → check_workspace m ≡ ok tt)
unfolding check_kind
kind-parts m h =
    let (first, second) =
      >>-parts (if m.kind == handoff_kind then check_handoff m else ok tt) _ h in
    (λ e. ground arith, λ e. ground arith)

full-kind :
    (m : Manifest) → m.scope ≡ Scope.full → check_kind m ≡ ok tt → (m.kind == handoff_kind) ≡ false
full-kind m e h = ground (arith, (kind-parts m h).0, handoff-scope m)

partial-kind :
    (m : Manifest)
    → m.scope ≡ Scope.partial
    → check_kind m ≡ ok tt
    → (m.kind == workspace_kind) ≡ false
partial-kind m e h = ground (arith, (kind-parts m h).1, workspace-scope m)

scope-full :
    (m : Manifest)
    → check_scope m Scope.full ≡ ok tt
    → ((id : ℕ) × (m.capsule_id ≡ some id))
      × ((ps : List ℕ) × (m.parents ≡ some ps))
      × ((root : ℕ) × (m.files ≡ some root))
      × (m.provenance ≡ none)
unfolding check_scope
scope-full m h = elim (Option-cases m.capsule_id) [
  | inl a ↦ ground arith
  | inr (id, a) ↦ elim (Option-cases m.parents) [
    | inl b ↦ ground arith
    | inr (ps, b) ↦ elim (Option-cases m.files) [
      | inl f ↦ ground arith
      | inr (root, f) ↦ ((id, a), (ps, b), (root, f), ground arith)
    ]
  ]
]

scope-partial :
    (m : Manifest)
    → check_scope m Scope.partial ≡ ok tt
    → (m.capsule_id ≡ none)
      × (m.parents ≡ none)
      × (m.labels ≡ none)
      × (m.recipes ≡ none)
      × (m.native ≡ none)
unfolding check_scope
scope-partial m h = (ground arith, ground arith, ground arith, ground arith, ground arith)

module _ ⦃c : Crates⦄ where
  -- An accepted manifest is either full, with a capsule, at most 16 distinct parents and a file
  -- tree, and no provenance, and is no handoff; or partial, with none of what places a snapshot in a
  -- capsule, and is no workspace.
  pub validate_schema-IsFull : (m : Manifest) → validate_schema m ≡ ok tt → IsFull m ⊎ IsPartial m
  validate_schema-IsFull m h =
      let (scope, lists, kind) = schema-parts m h in
      elim (scope-cases m.scope) [
        | inl full ↦
            let ((id, a), (ps, b), root, none_there) =
              scope-full m (ap (check_scope m) (sym full) ∙ scope) in
            let (few, distinct) = parents-bounds ps (lists-parents m ps b lists) in
            inl (record {
              scope = full;
              capsule_id = (id, a);
              parents = (ps, b, few, distinct);
              files = root;
              provenance = none_there;
              kind = full-kind m full kind;
            })
        | inr partial ↦
            let (a, b, l, r, n) = scope-partial m (ap (check_scope m) (sym partial) ∙ scope) in
            inr (record {
              scope = partial;
              capsule_id = a;
              parents = b;
              labels = l;
              recipes = r;
              native = n;
              kind = partial-kind m partial kind;
            })
      ]
