-- ===== src/Net/Delivery/Transfer/Staged.antt =====
-- What the staged store holds while objects arrive (crates/abra-net/src/delivery.rs).
use abra.Crates.{Crates}
use abra.Prelude.{
  ℕ, ◌+◌, ◌≤◌, ◌≡◌, refl, Bytes, Bool, true, false, none, some, List, [], ◌∷◌, ◌++◌, length, nat_eq,
  bytes_eq, Result, ok, err, Error, refuse_if, if◌then◌else◌,
}
use abra.Prelude.Map.{Map, get, contains_key}
use abra.Net.Sorted
use abra.Net.Sorted.{nat_ord}
use abra.Net.Framing.{ObjectHeader}
use abra.Net.Delivery.Plan.{PlanObject, collect_plan}
use abra.Net.Delivery.Transfer.{Hashers, Wanted, Receiving, partial_of, and_then}

abbrev pub concat : List Bytes → Bytes
concat [] = []
concat (x ∷ chunks) = x ++ concat chunks

module _ ⦃c : Crates⦄ ⦃hs : Hashers⦄ where
  abbrev pub absorb : hs.Hasher → List Bytes → hs.Hasher
  absorb h [] = h
  absorb h (x ∷ chunks) = absorb (hs.update h x) chunks

  -- What the documentation of blake3 says of its hasher: it digests the input of all its updates.
  abbrev pub IsIncremental : Type 0
  IsIncremental =
      (chunks : List Bytes) → hs.finalize (absorb hs.new chunks) ≡ c.blake3 (concat chunks)

  pub record Absorbed (h : hs.Hasher) (bytes : Bytes) : Type 0 where
    pub chunks : List Bytes
    pub fed : h ≡ absorb hs.new chunks
    pub read : concat chunks ≡ bytes

  abbrev pub HasDigest : Map ℕ Bytes → Type 0
  HasDigest files =
      (digest : ℕ) (bytes : Bytes) → get files digest ≡ some bytes → c.blake3 bytes ≡ digest

  -- A wanted object of the plan is staged, in its size and with its digest.
  pub record IsStaged (p : Wanted) (staged : Map ℕ Bytes) (digest : ℕ) : Type 0 where
    pub bytes : Bytes
    pub found : get staged digest ≡ some bytes
    pub same : c.blake3 bytes ≡ digest
    pub object : PlanObject
    pub planned : get (collect_plan p.objects) digest ≡ some object
    pub size : length bytes ≡ object.bytes
    pub wanted : contains_key p.have digest ≡ false

  -- Each staged file has the digest that names it, each hasher has read its partial file, and each
  -- completed object is staged.
  pub record IsReceiving (p : Wanted) (s : Receiving) : Type 0 where
    pub verified : HasDigest s.staged
    pub hashed :
        (digest : ℕ) (h : hs.Hasher)
        → get s.hashers digest ≡ some h
        → Absorbed h (partial_of s digest)
    pub staged : (digest : ℕ) → contains_key s.completed digest ≡ true → IsStaged p s.staged digest
    pub distinct : Sorted.IsDistinct s.completed

  -- The object of a header is wanted, still open, and of the header's size.
  pub record IsOpen (p : Wanted) (h : ObjectHeader) (s : Receiving) : Type 0 where
    pub object : PlanObject
    pub planned : get (collect_plan p.objects) h.digest ≡ some object
    pub wanted : contains_key p.have h.digest ≡ false
    pub size : h.total_size ≡ object.bytes
    pub pending : get s.completed h.digest ≡ none

  -- The partial file ends where the bytes that came end.
  pub record IsGrown (h : ObjectHeader) (bytes : Bytes) (s : Receiving) : Type 0 where
    pub end : length (partial_of s h.digest) ≡ h.offset + length bytes
    pub within : h.offset + length bytes ≤ h.total_size

  -- A result: after an error the loop stops, and the staged files still have their digests.
  abbrev pub After : (Receiving → Type 0) → Result (Unit {0}) × Receiving → Type 0
  After Q (err e, s) = HasDigest s.staged
  After Q (ok u, s) = Q s

  pub and_then-After :
      (Q R : Receiving → Type 0) (r : Result (Unit {0}) × Receiving)
      (next : Receiving → Result (Unit {0}) × Receiving)
      → After Q r
      → ((s : Receiving) → Q s → After R (next s))
      → After R (and_then r next)
  unfolding and_then
  and_then-After Q R (err e, s) next h step = h
  and_then-After Q R (ok u, s) next h step = step s h

  pub if-After :
      (Q : Receiving → Type 0) (b : Bool) (x y : Result (Unit {0}) × Receiving)
      → (b ≡ true → After Q x)
      → (b ≡ false → After Q y)
      → After Q (if b then x else y)
  if-After Q true x y h k = h refl
  if-After Q false x y h k = k refl

  pub refuse-After :
      (Q : Receiving → Type 0) (b : Bool) (e : Error) (s : Receiving)
      → HasDigest s.staged
      → (b ≡ false → Q s)
      → After Q (refuse_if b e, s)
  refuse-After Q true e s h k = h
  refuse-After Q false e s h k = k refl
