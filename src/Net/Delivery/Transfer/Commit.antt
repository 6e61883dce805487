-- ===== src/Net/Delivery/Transfer/Commit.antt =====
-- An object that is complete: its digest, and the staged file (crates/abra-net/src/delivery.rs).
use abra.Crates.{Crates}
use abra.Prelude.{
  ℕ, ◌≡◌, inl, inr, refl, sym, ap, ◌∙◌, Bytes, false, some, length, ◌==◌, nat_eq, bytes_eq,
  is_some_and, arith, Bool-cases, Option-cases, if◌then◌else◌,
}
use abra.Prelude.Map.{Map, get, contains_key}
use abra.Net.Sorted
use abra.Net.Sorted.{nat_ord}
use abra.Net.Framing.{ObjectHeader}
use abra.Net.Delivery.Transfer.{Hashers, Wanted, Receiving, partial_of}
use mathlib.Core.Path.{subst}
use abra.Net.Delivery.Transfer.Staged.{
  IsIncremental, Absorbed, HasDigest, IsStaged, IsReceiving, IsOpen,
}
use abra.Net.Delivery.Transfer.Append.{partial_of-remove}

module _ ⦃c : Crates⦄ ⦃hs : Hashers⦄ where
  pub digest-same :
      (h : ObjectHeader) (s : Receiving) (hasher : hs.Hasher)
      → IsIncremental
      → Absorbed hasher (partial_of s h.digest)
      → hs.finalize hasher ≡ h.digest
      → c.blake3 (partial_of s h.digest) ≡ h.digest
  digest-same h s hasher inc a same =
      ap c.blake3 (sym a.read) ∙ (sym (inc a.chunks) ∙ (ap hs.finalize (sym a.fed) ∙ same))

  -- The staged file of an object that is committed
  abbrev pub committed : Map ℕ Bytes → ℕ → Bytes → Map ℕ Bytes
  committed staged digest source =
      if is_some_and (get staged digest) (λ old. length old == length source)
      then staged
      else Sorted.insert staged digest source

  get-committed_other :
      (staged : Map ℕ Bytes) (digest d : ℕ) (source : Bytes)
      → (digest == d) ≡ false
      → get (committed staged digest source) d ≡ get staged d
  get-committed_other staged digest d source other =
      ground (arith, other, Sorted.get-insert staged digest d source)

  get-committed :
      (staged : Map ℕ Bytes) (digest : ℕ) (source : Bytes)
      → HasDigest staged
      → c.blake3 source ≡ digest
      → (bytes : Bytes) × (get (committed staged digest source) digest ≡ some bytes)
        × (c.blake3 bytes ≡ digest)
        × (length bytes ≡ length source)
  get-committed staged digest source verified same = elim (Option-cases (get staged digest)) [
    | inl missing ↦
        (source, ground (arith, missing, Sorted.get-insert staged digest digest source), same, refl)
    | inr (old, found) ↦ elim (Bool-cases (length old == length source)) [
      | inl equal ↦
          (old, ground (arith, found, equal), verified digest old found, ground (arith, equal))
      | inr longer ↦ (
        source,
        ground (arith, found, longer, Sorted.get-insert staged digest digest source),
        same,
        refl,
      )
    ]
  ]

  committed-HasDigest :
      (staged : Map ℕ Bytes) (digest : ℕ) (source : Bytes)
      → HasDigest staged
      → c.blake3 source ≡ digest
      → HasDigest (committed staged digest source)
  committed-HasDigest staged digest source verified same d bytes found =
      elim (Bool-cases (digest == d)) [
        | inr other ↦
            verified d bytes (sym (get-committed_other staged digest d source other) ∙ found)
        | inl equal ↦
            let (kept, at, hash, size) = get-committed staged digest source verified same in
            ground (arith, equal, found, at, hash)
      ]

  committed-IsStaged :
      (p : Wanted) (staged : Map ℕ Bytes) (digest d : ℕ) (source : Bytes)
      → (digest == d) ≡ false
      → IsStaged p staged d
      → IsStaged p (committed staged digest source) d
  committed-IsStaged p staged digest d source other i = record {
    bytes = i.bytes;
    found = get-committed_other staged digest d source other ∙ i.found;
    same = i.same;
    object = i.object;
    planned = i.planned;
    size = i.size;
    wanted = i.wanted;
  }

  opened-IsStaged :
      (p : Wanted) (h : ObjectHeader) (s : Receiving)
      → c.blake3 (partial_of s h.digest) ≡ h.digest
      → HasDigest s.staged
      → IsOpen p h s
      → length (partial_of s h.digest) ≡ h.total_size
      → IsStaged p (committed s.staged h.digest (partial_of s h.digest)) h.digest
  opened-IsStaged p h s same verified o full =
      let (kept, at, hash, size) =
        get-committed s.staged h.digest (partial_of s h.digest) verified same in
      record {
        bytes = kept;
        found = at;
        same = hash;
        object = o.object;
        planned = o.planned;
        size = size ∙ (full ∙ o.size);
        wanted = o.wanted;
      }

  pub settled-IsReceiving :
      (p : Wanted) (h : ObjectHeader) (s : Receiving)
      → c.blake3 (partial_of s h.digest) ≡ h.digest
      → IsReceiving p s
      → IsOpen p h s
      → length (partial_of s h.digest) ≡ h.total_size
      → IsReceiving p (record {
        partials = Sorted.remove s.partials h.digest;
        staged = committed s.staged h.digest (partial_of s h.digest);
        hashers = Sorted.remove s.hashers h.digest;
        completed = Sorted.insert s.completed h.digest tt;
      })
  unfolding contains_key partial_of
  settled-IsReceiving p h s same now o full = record {
    verified = committed-HasDigest s.staged h.digest (partial_of s h.digest) now.verified same;
    hashed = λ d x found. elim (Bool-cases (h.digest == d)) [
      | inl equal ↦ absurd (ground (arith, found, equal, Sorted.get-remove s.hashers h.digest d))
      | inr other ↦
          subst (λ z. Absorbed x z) (sym (partial_of-remove s h.digest d other))
            (now.hashed d x (ground (arith, found, other, Sorted.get-remove s.hashers h.digest d)))
    ];
    staged = λ d done. elim (Bool-cases (h.digest == d)) [
      | inl equal ↦
          let at : h.digest ≡ d = ground (arith, equal) in
          subst (λ k. IsStaged p (committed s.staged h.digest (partial_of s h.digest)) k) at
            (opened-IsStaged p h s same now.verified o full)
      | inr other ↦
          committed-IsStaged p s.staged h.digest d (partial_of s h.digest) other (
            now.staged d (ground (arith, done, other, Sorted.get-insert s.completed h.digest d tt)))
    ];
    distinct = Sorted.insert-IsDistinct s.completed h.digest tt o.pending now.distinct;
  }
