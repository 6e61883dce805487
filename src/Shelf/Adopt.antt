-- ===== src/Shelf/Adopt.antt =====
-- `adopt_capsule_state` of crates/abra-core/src/store.rs takes over all of a state or nothing.
use abra.Crates.{Crates}
use abra.Prelude.{
  ℕ, ◌≡◌, ◌↔◌, refl, sym, ap, ◌∙◌, inl, inr, Bytes, Bool, true, false, not, Option, none, some,
  List, [], ◌∷◌, ◌==◌, nat_eq, bytes_eq, arith, ok, Option-cases, invalid, not_found, refuse_if,
  ok_or, >>=-eq-ok, >>-parts, if◌then◌else◌,
}
use abra.Prelude.Map.{Map, get, insert, get-insert}
use abra.Capsule.LeaseRecord.{LeaseRecord}
use abra.Capsule.LabelOp.{LabelOp}
use abra.Capsule.State.{Capsule, label}
use abra.Capsule.Label.Applied.{Passed, newer, SameButLabels, applied, apply_label-newer}
use mathlib.Core.Path.{subst}
use abra.Capsule.Lease
use abra.Shelf.{
  AbraStore, Authorize, stage, adopt_leases, adopt_label, write_leases, write_won, is_adopted,
  adopt_capsule_state,
}

stage-get :
    (id : ℕ) (s : AbraStore) (staged : Capsule)
    → ok_or (get s.capsules id) (not_found "capsule" "") ≡ ok staged
    → get s.capsules id ≡ some staged
stage-get id s staged h = ground arith

module _ ⦃c : Crates⦄ (authorize : Authorize) where
  -- Leases that each win, one after the other.
  pub data Extends : Capsule → List LeaseRecord → Capsule → Type 0 where
    extended : {s : Capsule} → Extends s [] s
    wins :
        {s s' s'' : Capsule} {r : LeaseRecord} {rs : List LeaseRecord}
        → Lease.accept_lease s r authorize ≡ ok (true, s')
        → Extends s' rs s''
        → Extends s (r ∷ rs) s''

  no_leases : (s s' : Capsule) → s ≡ s' → Extends s [] s'
  no_leases s s' same = rw (sym same) extended

  adopt_leases-Extends :
      (s : Capsule) (rs : List LeaseRecord) (s' : Capsule)
      → adopt_leases s rs authorize ≡ ok s'
      → Extends s rs s'
  unfolding adopt_leases
  adopt_leases-Extends s [] s' h = no_leases s s' (ground arith)
  adopt_leases-Extends s (r ∷ rs) s' h =
      let (done, first, next) = >>=-eq-ok (Lease.accept_lease s r authorize) _ h in
      let (passed, rest) =
        >>-parts (refuse_if (not done.0) (invalid "lease chain does not extend winner")) _ next in
      let won : done.0 ≡ true = ground arith in
      wins (first ∙ ap (λ (b : Bool). ok (b, done.1)) won) (adopt_leases-Extends done.1 rs s' rest)

  -- No op leaves the capsule. An op has passed its tests, and the newer of it and the label of its
  -- name stays; nothing but that label changes, and the count of a new fork label.
  abbrev pub Labelled : Option LabelOp → ℕ → Capsule → Capsule → Type 0
  Labelled none now s s' = s' ≡ s
  Labelled (some op) now s s' =
      Passed s op op.by now
      × ((k : Bytes)
          → get s'.labels k
            ≡ (if op.name == k then newer (get s.labels op.name) op else get s.labels k))
      × SameButLabels s s'

  -- The answer is true exactly if the op's label points to the op's snapshot.
  abbrev pub Answers : Option LabelOp → Capsule → Bool → Type 0
  Answers none after b = b ≡ false
  Answers (some op) after b = (b ≡ true) ↔ (
      (current : LabelOp) × (get after.labels op.name ≡ some current)
      × (current.snapshot_id ≡ op.snapshot_id))

  adopt_label-Labelled :
      (s : Capsule) (op : Option LabelOp) (now : ℕ) (done : Bool × Capsule)
      → adopt_label s op now ≡ ok done
      → Labelled op now s done.1
  unfolding adopt_label
  adopt_label-Labelled s none now done h = ground (arith, h)
  adopt_label-Labelled s (some op) now done h =
      let (labels, won, same) = apply_label-newer s op op.by now done.0 done.1 h in
      ((applied s op op.by now done.0 done.1 h).0, labels, same)

  is_adopted-Answers :
      (op : Option LabelOp) (after : Capsule) → Answers op after (is_adopted after op)
  unfolding is_adopted label
  is_adopted-Answers none after = refl
  is_adopted-Answers (some op) after = elim (Option-cases (get after.labels op.name)) [
    | inl absent ↦
        (λ h. absurd (ground (arith, absent, h)), λ (l, at, same). ground (arith, absent, at))
    | inr (l, there) ↦ (
      λ h. (l, there, ground (arith, there, h)),
      λ (l', at, same). ground (arith, there, at, same),
    )
  ]

  -- The capsule was there; the leases have won one after the other on it; the label op was applied
  -- to the result; and the capsule that is stored is that one, every other as before.
  pub record Adopted (id : ℕ) (rs : List LeaseRecord) (op : Option LabelOp) (now : ℕ)
      (s : AbraStore) (b : Bool) (s' : AbraStore) : Type 0 where
    pub before : Capsule
    pub extended_to : Capsule
    pub after : Capsule
    pub held : get s.capsules id ≡ some before
    pub leases : Extends before rs extended_to
    pub labelled : Labelled op now extended_to after
    pub answer : Answers op after b
    pub stored : (k : ℕ) → get s'.capsules k ≡ (if id == k then some after else get s.capsules k)

  -- Where `adopt_capsule_state` succeeds, every lease has won, in order, on the capsule that was
  -- there; without a label op the result is stored, and with one the op has passed its tests, the
  -- newer of it and the label of its name stays, and no other label, snapshot or lease changes.
  -- Exactly that capsule is replaced. It answers true exactly if there is an op and its label points
  -- to its snapshot.
  pub adopt_capsule_state-Adopted :
      (id : ℕ) (rs : List LeaseRecord) (op : Option LabelOp) (now : ℕ) (s : AbraStore) (b : Bool)
      (s' : AbraStore)
      → adopt_capsule_state id rs op authorize now s ≡ ok (b, s')
      → Adopted id rs op now s b s'
  unfolding adopt_capsule_state stage
  adopt_capsule_state-Adopted id rs op now s b s' h =
      let (staged, held, h1) = >>=-eq-ok (stage id s) _ h in
      let (longer, leases, h2) = >>=-eq-ok (adopt_leases staged rs authorize) _ h1 in
      let (done, labelled, h3) = >>=-eq-ok (adopt_label longer op now) _ h2 in
      let (files, written, h4) = >>=-eq-ok (write_leases id rs s.files) _ h3 in
      let (files', label_written, h5) = >>=-eq-ok (write_won id op done.0 files) _ h4 in
      let capsules : s'.capsules ≡ insert s.capsules id done.1 = ground arith in
      let same : is_adopted done.1 op ≡ b = ground arith in
      let stored = λ (k : ℕ).
        ap (λ (m : Map ℕ Capsule). get m k) capsules ∙ get-insert s.capsules id k done.1 in
      record {
        before = staged;
        extended_to = longer;
        after = done.1;
        held = stage-get id s staged held;
        leases = adopt_leases-Extends staged rs longer leases;
        labelled = adopt_label-Labelled longer op now done labelled;
        answer = subst (λ x. Answers op done.1 x) same (is_adopted-Answers op done.1);
        stored = stored;
      }
