-- ===== src/Net/Delivery/Transfer/Complete.antt =====
-- What is staged when all objects of a plan have arrived (crates/abra-net/src/delivery.rs).
use abra.Crates.{Crates}
use abra.Prelude.{
  ℕ, zero, suc, ◌-◌, ◌≤◌, ◌≡◌, inl, inr, refl, ap, ◌∙◌, Bytes, true, false, not, Option, none, some,
  List, [], ◌∷◌, ◌++◌, map, length, take, drop, retain, ◌==◌, nat_eq, is_some, Result, ok, err,
  arith, Bool-cases,
}
use abra.Prelude.Map.{Map, get, contains_key}
use abra.Net.Sorted
use abra.Net.Sorted.{BTreeSet, nat_ord}
use abra.Net.Sorted.Bounds.{is_in, IsWithin-all}
use abra.Net.Delivery.Plan.{PlanObject, collect_plan}
use abra.Net.Delivery.Transfer.{
  Hashers, Wanted, or_empty, object_stream_chunk, Receiving, partial_of, read_loop, resume_hasher,
  resume_hashers, begin_receiving, receive_objects, wanted_objects,
}
use abra.Net.Delivery.Transfer.Staged.{
  concat, absorb, IsIncremental, Absorbed, HasDigest, IsStaged, IsReceiving, After,
}
use abra.Net.Delivery.Transfer.Loop.{IsDone, receive_objects-IsDone}
use mathlib.Core.Path.{subst}

abbrev pub digests : List PlanObject → List ℕ
digests = map (λ (x : PlanObject). x.digest)

length-digests : (objects : List PlanObject) → length (digests objects) ≡ length objects
length-digests [] = refl
length-digests (x ∷ objects) = ap suc (length-digests objects)

collect_plan-is_in :
    (p : Wanted) (objects : List PlanObject) (digest : ℕ)
    → is_some (get (collect_plan objects) digest) ≡ true
    → contains_key p.have digest ≡ false
    → is_in digest
        (digests (retain (λ (x : PlanObject). not (contains_key p.have x.digest)) objects))
      ≡ true
unfolding collect_plan get contains_key
collect_plan-is_in p [] digest h unheld = absurd (ground arith)
collect_plan-is_in p (x ∷ objects) digest h unheld = elim (Bool-cases (x.digest == digest)) [
  | inl same ↦
      (let at : x.digest ≡ digest = ground (arith, same) in ground (arith, unheld, at, same))
  | inr other ↦ ground (
    arith,
    h,
    unheld,
    other,
    collect_plan-is_in p objects digest,
    Sorted.get-insert (collect_plan objects) x.digest digest x,
  )
]

append-take-drop : (n : ℕ) (file : Bytes) → take n file ++ drop n file ≡ file
append-take-drop zero file = refl
append-take-drop (suc n) [] = refl
append-take-drop (suc n) (x ∷ file) = ap (λ z. x ∷ z) (append-take-drop n file)

length-drop : (n : ℕ) (file : Bytes) → length (drop n file) ≤ length file
length-drop zero file = omega arith
length-drop (suc n) [] = omega arith
length-drop (suc n) (x ∷ file) = ground (arith, length-drop n file)

module _ ⦃c : Crates⦄ ⦃hs : Hashers⦄ where
  -- The file's length is enough fuel: the hasher reads all of it.
  read_loop-reads :
      (fuel : ℕ) (file : Bytes) (h : hs.Hasher)
      → length file ≤ fuel
      → (chunks : List Bytes) × (read_loop fuel file h ≡ absorb h chunks) × (concat chunks ≡ file)
  unfolding read_loop
  read_loop-reads fuel [] h enough = ([], refl, refl)
  read_loop-reads zero (x ∷ file) h enough = absurd (ground (arith, enough))
  read_loop-reads (suc n) (x ∷ file) h enough =
      let k = object_stream_chunk - 1 in
      let (chunks, fed, read) =
        read_loop-reads n (drop k file) (hs.update h (x ∷ take k file))
          (ground (arith, enough, length-drop k file)) in
      (
        (x ∷ take k file) ∷ chunks,
        fed,
        ap (λ z. x ∷ (take k file ++ z)) read ∙ ap (λ z. x ∷ z) (append-take-drop k file),
      )

  resume_hasher-Absorbed : (file : Option Bytes) → Absorbed (resume_hasher file) (or_empty file)
  unfolding resume_hasher
  resume_hasher-Absorbed none = record { chunks = []; fed = refl; read = refl }
  resume_hasher-Absorbed (some file) =
      let (chunks, fed, read) = read_loop-reads (length file) file hs.new (omega arith) in
      record { chunks = chunks; fed = fed; read = read }

  resume_hashers-Absorbed :
      (partials : Map ℕ Bytes) (objects : List PlanObject) (digest : ℕ) (h : hs.Hasher)
      → get (resume_hashers partials objects) digest ≡ some h
      → Absorbed h (or_empty (get partials digest))
  unfolding resume_hashers get
  resume_hashers-Absorbed partials [] digest h found = cc
  resume_hashers-Absorbed partials (x ∷ objects) digest h found =
      let inserted =
        Sorted.get-insert (resume_hashers partials objects) x.digest digest
          (resume_hasher (get partials x.digest)) in
      elim (Bool-cases (x.digest == digest)) [
        | inl same ↦
            let at : x.digest ≡ digest = ground (arith, same) in
            let is : resume_hasher (get partials x.digest) ≡ h =
              ground (arith, found, same, inserted) in
            subst (λ y. Absorbed y (or_empty (get partials digest))) is
              (subst
                (λ k. Absorbed (resume_hasher (get partials x.digest)) (or_empty (get partials k)))
                at (resume_hasher-Absorbed (get partials x.digest)))
        | inr other ↦
            resume_hashers-Absorbed partials objects digest h
              (ground (arith, found, other, inserted))
      ]

  begin_receiving-IsReceiving :
      (p : Wanted) (partials staged : Map ℕ Bytes)
      → HasDigest staged
      → IsReceiving p (begin_receiving p partials staged)
  unfolding begin_receiving partial_of contains_key get
  begin_receiving-IsReceiving p partials staged verified = record {
    verified = verified;
    hashed = λ digest h found. resume_hashers-Absorbed partials (wanted_objects p) digest h found;
    staged = λ digest done. absurd (ground (arith, done));
    distinct = tt;
  }

  IsDone-staged :
      (p : Wanted) (s : Receiving) (digest : ℕ)
      → IsDone p s
      → is_in digest (digests (wanted_objects p)) ≡ true
      → IsStaged p s.staged digest
  unfolding wanted_objects
  IsDone-staged p s digest (now, long) wanted = now.staged digest (
      IsWithin-all (digests (wanted_objects p)) s.completed now.distinct
        (λ k done.
          let i = now.staged k done in
          collect_plan-is_in p p.objects k (ground (arith, i.planned)) i.wanted)
        (ground (arith, long, length-digests (wanted_objects p))) digest wanted)

  -- A call without an error has what holds after such a call.
  After-ok :
      (Q : Receiving → Type 0) (r : Result (Unit {0}) × Receiving) → r.0 ≡ ok tt → After Q r → Q r.1
  After-ok Q (err e, s) h after = absurd (ground arith)
  After-ok Q (ok u, s) h after = after

  -- When the loop over the streams of an accepted plan ends without an error, every object of the plan
  -- that the receiver does not have is staged, in the plan's size and with the digest that names it,
  -- whatever partial files were there and however the streams came: if blake3's hasher digests the
  -- input of all its updates, and every file staged before has the digest that names it.
  pub receive_objects-IsStaged :
      (p : Wanted) (partials staged : Map ℕ Bytes) (streams : List Bytes) (digest : ℕ)
      → IsIncremental
      → HasDigest staged
      → (receive_objects p streams (begin_receiving p partials staged)).0 ≡ ok tt
      → is_in digest (digests (wanted_objects p)) ≡ true
      → IsStaged p (receive_objects p streams (begin_receiving p partials staged)).1.staged digest
  receive_objects-IsStaged p partials staged streams digest inc verified done wanted =
      let r = receive_objects p streams (begin_receiving p partials staged) in
      let after =
        receive_objects-IsDone p streams (begin_receiving p partials staged) inc
          (begin_receiving-IsReceiving p partials staged verified) in
      IsDone-staged p r.1 digest (After-ok (IsDone p) r done after) wanted
