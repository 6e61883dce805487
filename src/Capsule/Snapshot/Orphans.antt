-- ===== src/Capsule/Snapshot/Orphans.antt =====
-- `resolve_orphans`: the loop ends, and leaves a record an orphan exactly while a parent is missing.
use abra.Prelude.{
  ℕ, ◌≡◌, refl, sym, ap, ◌∙◌, true, false, not, List, [], ◌∷◌, arith, nat_eq, Bool-cases, ok, inl,
  inr,
}
use abra.Prelude.Map.{get, contains_key}
use abra.Capsule.Snapshot.{
  Snapshots, parents_of, knows_all, resolve_record, resolve_pass, changes, resolve_loop,
  resolve_orphans,
}

-- An orphan is a record with a parent that is not known.
abbrev pub Exact : Snapshots → Snapshots → Type 0
Exact known [] = Unit {0}
Exact known ((k, r) ∷ m) = (r.orphan ≡ not (knows_all known (parents_of r))) × Exact known m

-- A record that is no orphan has all its parents known; the other way round is not said.
abbrev pub Lagging : Snapshots → Snapshots → Type 0
Lagging known [] = Unit {0}
Lagging known ((k, r) ∷ m) =
    (r.orphan ≡ false → knows_all known (parents_of r) ≡ true) × Lagging known m

-- Two maps with the same keys.
abbrev pub SameKeys : Snapshots → Snapshots → Type 0
SameKeys m n = (k : ℕ) → contains_key m k ≡ contains_key n k

pub knows_all-SameKeys :
    (m n : Snapshots) (ps : List ℕ) → SameKeys m n → knows_all m ps ≡ knows_all n ps
unfolding knows_all
knows_all-SameKeys m n [] h = refl
knows_all-SameKeys m n (p ∷ ps) h = ground (arith, h p, knows_all-SameKeys m n ps h)

pub Exact-SameKeys : (m n k : Snapshots) → SameKeys m n → Exact m k → Exact n k
Exact-SameKeys m n [] h x = tt
Exact-SameKeys m n ((j, r) ∷ k) h x =
    (x.0 ∙ ap not (knows_all-SameKeys m n (parents_of r) h), Exact-SameKeys m n k h x.1)

pub Exact-Lagging : (m k : Snapshots) → Exact m k → Lagging m k
Exact-Lagging m [] x = tt
Exact-Lagging m ((j, r) ∷ k) x = ((λ e. ground (arith, x.0)), Exact-Lagging m k x.1)

pub resolve_pass-Exact :
    (known m : Snapshots) → Lagging known m → Exact known (resolve_pass known m)
unfolding resolve_pass resolve_record
resolve_pass-Exact known [] x = tt
resolve_pass-Exact known ((k, r) ∷ m) x = (ground (arith, x.0), resolve_pass-Exact known m x.1)

-- A pass keeps the keys.
pub resolve_pass-SameKeys : (known m : Snapshots) → SameKeys m (resolve_pass known m)
unfolding resolve_pass contains_key get
resolve_pass-SameKeys known [] j = refl
resolve_pass-SameKeys known ((k, r) ∷ m) j = ground (arith, resolve_pass-SameKeys known m j)

-- Behind a pass over known parents no record changes again.
changes-resolve_pass : (known m : Snapshots) → changes known (resolve_pass known m) ≡ false
unfolding changes resolve_pass resolve_record
changes-resolve_pass known [] = refl
changes-resolve_pass known ((k, r) ∷ m) = ground (arith, changes-resolve_pass known m)

changes-SameKeys : (m n k : Snapshots) → SameKeys m n → changes m k ≡ changes n k
unfolding changes
changes-SameKeys m n [] h = refl
changes-SameKeys m n ((j, r) ∷ k) h =
    ground (arith, knows_all-SameKeys m n (parents_of r) h, changes-SameKeys m n k h)

unchanged : (known m : Snapshots) → changes known m ≡ false → resolve_pass known m ≡ m
unfolding changes resolve_pass resolve_record
unchanged known [] h = refl
unchanged known ((k, r) ∷ m) h = ground (arith, unchanged known m)

-- The loop of `resolve_orphans` always ends, in its second pass at the latest, and its effect is
-- that of one pass.
pub resolve_orphans-total : (m : Snapshots) → resolve_orphans m ≡ ok (resolve_pass m m)
unfolding resolve_orphans resolve_loop
resolve_orphans-total m =
    let n = resolve_pass m m in
    let quiet : changes n n ≡ false =
      sym (changes-SameKeys m n n (resolve_pass-SameKeys m m)) ∙ changes-resolve_pass m m in
    let same : resolve_pass n n ≡ n = unchanged n n quiet in
    elim (Bool-cases (changes m m)) [ inl e ↦ rw (e, quiet, same) | inr e ↦ rw e ]
