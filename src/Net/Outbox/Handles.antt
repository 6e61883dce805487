-- ===== src/Net/Outbox/Handles.antt =====
-- `Outbox::open` and `Outbox::mutate` of crates/abra-net/src/outbox.rs: handles that share a file
-- under a lock. The file is the state that `save` has written to it, since serde reads back what it
-- has written; errors of the file system are not modelled.
use abra.Prelude.{
  ℕ, ◌≡◌, refl, ap, Bool, true, false, Option, none, some, List, [], ◌∷◌, ◌==◌, nat_eq, Result, ok,
  err, arith, if◌then◌else◌,
}
use abra.Net.Outbox.{Disk}

pub record Handle : Type 0 where
  pub disk : Disk
  pub persist : Bool

-- `fs::read`; no file is the default
abbrev pub load : Option Disk → Disk
load none = []
load (some d) = d

unfoldable pub open_outbox : Option Disk → Handle
open_outbox file = record { disk = load file; persist = true }

unfoldable pub detached : Handle → Handle
detached h = record h { persist = false }

abbrev pub update : (ℕ → Handle) → ℕ → Handle → ℕ → Handle
update hs i h j = if i == j then h else hs j

update-persist :
    (hs : ℕ → Handle) (i : ℕ) (h : Handle)
    → ((j : ℕ) → (hs j).persist ≡ true)
    → h.persist ≡ true
    → (j : ℕ) → (update hs i h j).persist ≡ true
update-persist hs i h all p j = ground (arith, all j)

pub record Mutated {ℓ} (A : Type ℓ) : Type ℓ where
  pub result : Result A
  pub handle : Handle
  pub file : Option Disk

module _ {ℓ} {A : Type ℓ} where
  -- In memory only.
  unfoldable pub keep : Handle → Option Disk → Result (A × Disk) → Mutated A
  keep h file (ok (a, d)) = record { result = ok a; handle = record h { disk = d }; file = file }
  keep h file (err e) = record { result = err e; handle = h; file = file }

  -- On the state that was read from the file; it is saved unless the body fails.
  unfoldable pub save : Handle → Option Disk → Result (A × Disk) → Mutated A
  save h file (ok (a, d)) = record { result = ok a; handle = record h { disk = d }; file = some d }
  save h file (err e) = record {
    result = err e;
    handle = record h { disk = load file };
    file = file;
  }

  unfoldable pub mutate : (Disk → Result (A × Disk)) → Handle → Option Disk → Mutated A
  unfolding keep save
  mutate f h file = if h.persist then save h file (f (load file)) else keep h file (f h.disk)

  -- The operations of any number of handles, each with the handle that runs it.
  unfoldable pub run_handles :
      (ℕ → Handle) → Option Disk → List (ℕ × (Disk → Result (A × Disk))) → List (Result A) × Disk
  run_handles hs file [] = ([], load file)
  run_handles hs file ((i, f) ∷ es) =
      let m = mutate f (hs i) file in
      let rest = run_handles (update hs i m.handle) m.file es in (m.result ∷ rest.0, rest.1)

  -- The specification: one disk, changed in place, that keeps what it has where an operation fails.
  abbrev pub after : Disk → Result (A × Disk) → Result A × Disk
  after d (ok (a, d')) = (ok a, d')
  after d (err e) = (err e, d)

  unfoldable pub run_atomic : Disk → List (ℕ × (Disk → Result (A × Disk))) → List (Result A) × Disk
  run_atomic d [] = ([], d)
  run_atomic d ((i, f) ∷ es) =
      let s = after d (f d) in let rest = run_atomic s.1 es in (s.0 ∷ rest.0, rest.1)

  mutate-after :
      (f : Disk → Result (A × Disk)) (h : Handle) (file : Option Disk)
      → h.persist ≡ true
      → (((mutate f h file).result ≡ (after (load file) (f (load file))).0)
          × (load (mutate f h file).file ≡ (after (load file) (f (load file))).1)
          × ((mutate f h file).handle.persist ≡ true))
  unfolding mutate
  mutate-after f h file p = ground arith

  -- Handles that share the file behave as one disk that each operation changes at once: in every
  -- interleaving the results and the final file are those of the operations in that order on it.
  pub run_handles-atomic :
      (hs : ℕ → Handle) (file : Option Disk) (es : List (ℕ × (Disk → Result (A × Disk))))
      → ((j : ℕ) → (hs j).persist ≡ true)
      → run_handles hs file es ≡ run_atomic (load file) es
  unfolding run_handles run_atomic
  run_handles-atomic hs file [] all = refl
  run_handles-atomic hs file ((i, f) ∷ es) all =
      let m = mutate f (hs i) file in
      let (r, d, p) = mutate-after f (hs i) file (all i) in
      let ih =
        run_handles-atomic (update hs i m.handle) m.file es (update-persist hs i m.handle all p) in
      ground (arith, r, ap (λ (q : Disk). run_atomic q es) d, ih)
