-- ===== src/Restore/Eligible.antt =====
-- When `plan_native` of crates/abra-core/src/restore.rs finds the native state eligible.
use abra.Crates.{Crates}
use abra.Prelude.{
  ◌≡◌, ◌↔◌, refl, sym, ap, ◌∙◌, Bytes, false, Option, none, some, List, [], ◌∷◌, nat_eq, arith, inl,
  inr, Result-cases, ok,
}
use abra.Manifest.Schema.{Fingerprint, NativeBlobRef}
use abra.Cas.Store.{Files, verify_object}
use abra.Restore.{
  NativeStatus, NativeRestore, Roles, matching, with_role, add_role, sort_roles, is_empty,
  check_artifact, find_issues, finish_plan, plan_for, plan_native,
}

module _ ⦃c : Crates⦄ where
  -- A role is ready: one artifact with the target's fingerprint has it, and the object of that
  -- artifact is there, intact and of the declared size.
  pub record IsReady (files : Files) (entries : List NativeBlobRef) (role : Bytes)
      (a : NativeBlobRef) : Type 0 where
    pub only : with_role role entries ≡ a ∷ []
    pub intact : verify_object files a.blob ≡ ok a.bytes

  -- Each role is ready, with these artifacts in this order.
  abbrev pub AreReady : Files → List NativeBlobRef → List Bytes → List NativeBlobRef → Type 0
  AreReady files entries [] [] = Unit {0}
  AreReady files entries (role ∷ roles) (a ∷ artifacts) =
      IsReady files entries role a × AreReady files entries roles artifacts
  AreReady files entries _ _ = ⊥

  check_artifact-ok :
      (files : Files) (a : NativeBlobRef)
      → (check_artifact files a ≡ ok tt) ↔ (verify_object files a.blob ≡ ok a.bytes)
  unfolding check_artifact
  check_artifact-ok files a = (λ h. ground arith, λ h. ground arith)

  -- What the loop and the check of the objects say together.
  abbrev Clean : Files → Roles → Type 0
  Clean files g = (g.ambiguous ≡ false) × (g.missing ≡ []) × (find_issues files g.artifacts ≡ [])

  find_issues-cons :
      (files : Files) (a : NativeBlobRef) (artifacts : List NativeBlobRef)
      → (find_issues files (a ∷ artifacts) ≡ [])
        ↔ ((check_artifact files a ≡ ok tt) × (find_issues files artifacts ≡ []))
  unfolding find_issues
  find_issues-cons files a artifacts = elim (Result-cases (check_artifact files a)) [
    | inl (e, refused) ↦ (λ h. ground arith, λ h. ground arith)
    | inr (u, passed) ↦ (λ h. (passed, ground arith), λ h. ground arith)
  ]

  add_role-AreReady :
      (files : Files) (entries : List NativeBlobRef) (role : Bytes) (roles : List Bytes) (g : Roles)
      (found : List NativeBlobRef)
      → with_role role entries ≡ found
      → (Clean files g → AreReady files entries roles g.artifacts)
      → Clean files (add_role role found g)
      → AreReady files entries (role ∷ roles) (add_role role found g).artifacts
  unfolding add_role
  add_role-AreReady files entries role roles g [] e ih (unique, complete, available) =
      absurd (ground arith)
  add_role-AreReady files entries role roles g (a ∷ []) e ih (unique, complete, available) =
      let (passed, others) = (find_issues-cons files a g.artifacts).0 available in
      (
        record { only = e; intact = (check_artifact-ok files a).0 passed },
        ih (unique, complete, others),
      )
  add_role-AreReady files entries role roles g (a ∷ (b ∷ found)) e ih
        (unique, complete, available) =
      absurd (ground arith)

  sort_roles-AreReady :
      (files : Files) (entries : List NativeBlobRef) (roles : List Bytes)
      → Clean files (sort_roles entries roles)
      → AreReady files entries roles (sort_roles entries roles).artifacts
  unfolding sort_roles
  sort_roles-AreReady files entries [] h = tt
  sort_roles-AreReady files entries (role ∷ roles) h =
      add_role-AreReady files entries role roles (sort_roles entries roles) (with_role role entries)
        refl (sort_roles-AreReady files entries roles) h

  add_role-Clean :
      (files : Files) (role : Bytes) (a : NativeBlobRef) (g : Roles)
      → check_artifact files a ≡ ok tt
      → Clean files g
      → Clean files (add_role role (a ∷ []) g)
  unfolding add_role
  add_role-Clean files role a g passed (unique, complete, available) =
      (unique, complete, (find_issues-cons files a g.artifacts).1 (passed, available))

  add_role-artifacts :
      (role : Bytes) (a : NativeBlobRef) (g : Roles)
      → (add_role role (a ∷ []) g).artifacts ≡ a ∷ g.artifacts
  unfolding add_role
  add_role-artifacts role a g = refl

  AreReady-sort_roles :
      (files : Files) (entries : List NativeBlobRef) (roles : List Bytes)
      (artifacts : List NativeBlobRef)
      → AreReady files entries roles artifacts
      → Clean files (sort_roles entries roles) × ((sort_roles entries roles).artifacts ≡ artifacts)
  unfolding sort_roles find_issues
  AreReady-sort_roles files entries [] [] h = ((refl, refl, refl), refl)
  AreReady-sort_roles files entries [] (a ∷ artifacts) h = absurd h
  AreReady-sort_roles files entries (role ∷ roles) [] h = absurd h
  AreReady-sort_roles files entries (role ∷ roles) (a ∷ artifacts) (ready, rest) =
      let (clean, same) = AreReady-sort_roles files entries roles artifacts rest in
      let passed = (check_artifact-ok files a).1 ready.intact in
      rw ready.only (
        add_role-Clean files role a (sort_roles entries roles) passed clean,
        add_role-artifacts role a (sort_roles entries roles)
            ∙ ap (λ (found : List NativeBlobRef). a ∷ found) same,
      )

  finish_plan-eligible :
      (files : Files) (g : Roles)
      → ((finish_plan files g).status ≡ NativeStatus.eligible) ↔ Clean files g
  unfolding finish_plan
  finish_plan-eligible files g = (
    λ h. (ground arith, ground arith, ground arith),
    λ (unique, complete, available). ground arith,
  )

  finish_plan-artifacts :
      (files : Files) (g : Roles) → (finish_plan files g).artifacts ≡ g.artifacts
  unfolding finish_plan
  finish_plan-artifacts files g = ground arith

  plan_for-eligible :
      (files : Files) (native : List NativeBlobRef) (target : Fingerprint) (roles : List Bytes)
      → (plan_for files native target roles).status ≡ NativeStatus.eligible
      → (is_empty roles ≡ false)
        × (plan_for files native target roles
            ≡ finish_plan files (sort_roles (matching target native) roles))
  unfolding plan_for
  plan_for-eligible files native target roles h = ground arith

  ready-matching :
      (files : Files) (entries : List NativeBlobRef) (roles : List Bytes)
      (artifacts : List NativeBlobRef)
      → is_empty roles ≡ false
      → AreReady files entries roles artifacts
      → is_empty entries ≡ false
  unfolding with_role
  ready-matching files [] [] artifacts some_role h = ground arith
  ready-matching files [] (role ∷ roles) [] some_role h = absurd h
  ready-matching files [] (role ∷ roles) (a ∷ artifacts) some_role (ready, rest) =
      let only = ready.only in ground arith
  ready-matching files (x ∷ entries) roles artifacts some_role h = refl

  plan_native-some :
      (files : Files) (native : List NativeBlobRef) (target : Fingerprint) (roles : List Bytes)
      → (plan_native files native (some target) roles).status ≡ NativeStatus.eligible
      → plan_native files native (some target) roles ≡ plan_for files native target roles
  unfolding plan_native
  plan_native-some files native target roles h = ground arith

  plan_native-ready :
      (files : Files) (native : List NativeBlobRef) (target : Fingerprint) (roles : List Bytes)
      → is_empty roles ≡ false
      → is_empty (matching target native) ≡ false
      → plan_native files native (some target) roles
        ≡ finish_plan files (sort_roles (matching target native) roles)
  unfolding plan_native plan_for matching
  plan_native-ready files [] target roles some_role some_match = ground arith
  plan_native-ready files (x ∷ native) target roles some_role some_match = ground arith

  eligible-AreReady :
      (files : Files) (native : List NativeBlobRef) (roles : List Bytes)
      (artifacts : List NativeBlobRef) (target : Option Fingerprint)
      → ((plan_native files native target roles).status ≡ NativeStatus.eligible)
        × ((plan_native files native target roles).artifacts ≡ artifacts)
      → (t : Fingerprint) × (target ≡ some t)
        × (is_empty roles ≡ false)
        × AreReady files (matching t native) roles artifacts
  unfolding plan_native
  eligible-AreReady files native roles artifacts none (h, e) = absurd (ground arith)
  eligible-AreReady files native roles artifacts (some t) (h, e) =
      let first = plan_native-some files native t roles h in
      let (some_role, second) =
        plan_for-eligible files native t roles
          (ap (λ (p : NativeRestore). p.status) (sym first) ∙ h) in
      let g = sort_roles (matching t native) roles in
      let whole = first ∙ second in
      let clean =
        (finish_plan-eligible files g).0 (ap (λ (p : NativeRestore). p.status) (sym whole) ∙ h) in
      let same =
        sym (finish_plan-artifacts files g)
        ∙ ap (λ (p : NativeRestore). p.artifacts) (sym whole)
        ∙ e in
      (
        t,
        refl,
        some_role,
        rw (sym same) (sort_roles-AreReady files (matching t native) roles clean),
      )

  AreReady-eligible :
      (files : Files) (native : List NativeBlobRef) (roles : List Bytes)
      (artifacts : List NativeBlobRef) (target : Option Fingerprint)
      → (t : Fingerprint) × (target ≡ some t)
        × (is_empty roles ≡ false)
        × AreReady files (matching t native) roles artifacts
      → ((plan_native files native target roles).status ≡ NativeStatus.eligible)
        × ((plan_native files native target roles).artifacts ≡ artifacts)
  AreReady-eligible files native roles artifacts target (t, e, some_role, ready) =
      let some_match = ready-matching files (matching t native) roles artifacts some_role ready in
      let g = sort_roles (matching t native) roles in
      let (clean, same) = AreReady-sort_roles files (matching t native) roles artifacts ready in
      let whole =
        ap (λ (o : Option Fingerprint). plan_native files native o roles) e
        ∙ plan_native-ready files native t roles some_role some_match in
      (
        ap (λ (p : NativeRestore). p.status) whole ∙ (finish_plan-eligible files g).1 clean,
        ap (λ (p : NativeRestore). p.artifacts) whole ∙ finish_plan-artifacts files g ∙ same,
      )

  -- The native state is eligible exactly if there are a target and a required role, and each role
  -- has exactly one artifact with the target's fingerprint, whose object is intact and of the size
  -- in the manifest; the plan's artifacts are those, in the order of the roles.
  pub plan_native-AreReady :
      (files : Files) (native : List NativeBlobRef) (target : Option Fingerprint)
      (roles : List Bytes) (artifacts : List NativeBlobRef)
      → (((plan_native files native target roles).status ≡ NativeStatus.eligible)
          × ((plan_native files native target roles).artifacts ≡ artifacts))
        ↔ ((t : Fingerprint) × (target ≡ some t)
            × (is_empty roles ≡ false)
            × AreReady files (matching t native) roles artifacts)
  plan_native-AreReady files native target roles artifacts = (
    eligible-AreReady files native roles artifacts target,
    AreReady-eligible files native roles artifacts target,
  )
