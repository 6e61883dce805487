-- ===== src/Net/Delivery/Transfer/Append.antt =====
-- The tests of a header, and the bytes that are appended (crates/abra-net/src/delivery.rs).
use abra.Crates.{Crates}
use abra.Prelude.{
  ℕ, ◌≡◌, inl, inr, refl, sym, ap, ◌∙◌, Bytes, true, false, not, Option, none, some, List, [], ◌∷◌,
  ◌++◌, length, length-append, ◌==◌, nat_eq, bytes_eq, ltb, Result, ok, err, protocol, >>=-eq-ok,
  >>-parts, refuse_if, arith, Bool-cases, if◌then◌else◌,
}
use abra.Prelude.Map.{get, contains_key}
use abra.Net.Sorted
use abra.Net.Sorted.{nat_ord}
use abra.Net.Framing.{ObjectHeader}
use abra.Net.Delivery.Plan.{collect_plan, wanted_plan_object}
use abra.Net.Delivery.Transfer.{
  Hashers, Wanted, or_empty, saturating_add, Receiving, partial_of, check_header, append_partial,
  feed_found,
}
use mathlib.Core.List.{append_assoc, append-nil}
use mathlib.Core.Path.{subst}
use abra.Net.Delivery.Transfer.Staged.{
  concat, absorb, Absorbed, HasDigest, IsStaged, IsReceiving, IsOpen, IsGrown, After, if-After,
  refuse-After,
}

concat-append : (xs : List Bytes) (x : Bytes) → concat (xs ++ (x ∷ [])) ≡ concat xs ++ x
concat-append [] x = append-nil x
concat-append (y ∷ xs) x =
    ap (λ z. y ++ z) (concat-append xs x) ∙ sym (append_assoc y (concat xs) x)

module _ ⦃c : Crates⦄ ⦃hs : Hashers⦄ where
  absorb-append :
      (h : hs.Hasher) (chunks : List Bytes) (x : Bytes)
      → absorb h (chunks ++ (x ∷ [])) ≡ hs.update (absorb h chunks) x
  absorb-append h [] x = refl
  absorb-append h (y ∷ chunks) x = absorb-append (hs.update h y) chunks x

  Absorbed-update :
      (h : hs.Hasher) (old bytes : Bytes)
      → Absorbed h old
      → Absorbed (hs.update h bytes) (old ++ bytes)
  Absorbed-update h old bytes a = record {
    chunks = a.chunks ++ (bytes ∷ []);
    fed = ap (λ x. hs.update x bytes) a.fed ∙ sym (absorb-append hs.new a.chunks bytes);
    read = concat-append a.chunks bytes ∙ ap (λ x. x ++ bytes) a.read;
  }

  -- Between append_partial and the update of the hasher, the hasher of one object is behind by the
  -- bytes that came.
  pub record IsBehind (p : Wanted) (digest : ℕ) (bytes : Bytes) (s : Receiving) : Type 0 where
    pub verified : HasDigest s.staged
    pub hashed :
        (d : ℕ) (h : hs.Hasher)
        → get s.hashers d ≡ some h
        → (d == digest) ≡ false
        → Absorbed h (partial_of s d)
    pub behind :
        (h : hs.Hasher)
        → get s.hashers digest ≡ some h
        → Absorbed (hs.update h bytes) (partial_of s digest)
    pub staged : (d : ℕ) → contains_key s.completed d ≡ true → IsStaged p s.staged d
    pub distinct : Sorted.IsDistinct s.completed

  partial_of-insert :
      (s : Receiving) (digest d : ℕ) (grown : Bytes)
      → partial_of (record s { partials = Sorted.insert s.partials digest grown }) d
        ≡ (if digest == d then grown else partial_of s d)
  unfolding partial_of
  partial_of-insert s digest d grown = ground (arith, Sorted.get-insert s.partials digest d grown)

  pub partial_of-remove :
      (s : Receiving) (digest d : ℕ)
      → (digest == d) ≡ false
      → or_empty (get (Sorted.remove s.partials digest) d) ≡ partial_of s d
  unfolding partial_of
  partial_of-remove s digest d h = ground (arith, h, Sorted.get-remove s.partials digest d)

  grown-IsBehind :
      (p : Wanted) (s : Receiving) (digest : ℕ) (bytes : Bytes)
      → IsReceiving p s
      → IsBehind p digest bytes
          (record s { partials = Sorted.insert s.partials digest (partial_of s digest ++ bytes) })
  grown-IsBehind p s digest bytes r = record {
    verified = r.verified;
    hashed = λ d h found other.
        subst (λ x. Absorbed h x)
          (sym
            (partial_of-insert s digest d (partial_of s digest ++ bytes) ∙ (ground (arith, other))))
          (r.hashed d h found);
    behind = λ h found.
        subst (λ x. Absorbed (hs.update h bytes) x)
          (sym (partial_of-insert s digest digest (partial_of s digest ++ bytes) ∙ ground arith))
          (Absorbed-update h (partial_of s digest) bytes (r.hashed digest h found));
    staged = r.staged;
    distinct = r.distinct;
  }

  pub check_header-IsOpen :
      (p : Wanted) (h : ObjectHeader) (s : Receiving) (r : Result (Unit {0}))
      → IsReceiving p s
      → check_header p h s ≡ r
      → After (λ s. IsReceiving p s × IsOpen p h s) (r, s)
  unfolding check_header wanted_plan_object contains_key
  check_header-IsOpen p h s (err e) now k = now.verified
  check_header-IsOpen p h s (ok u) now k =
      let (object, found, k0) =
        >>=-eq-ok (wanted_plan_object (collect_plan p.objects) p.have h.digest) _ k in
      let (k1, k2) = >>-parts (refuse_if (contains_key p.have h.digest) _) _ found in
      let (k3, k4) = >>-parts (refuse_if (contains_key s.completed h.digest) _) _ k0 in
      (
        now,
        record {
          object = object;
          planned = ground (arith, k2);
          wanted = ground (arith, k1);
          size = ground (arith, k4);
          pending = ground (arith, k3);
        },
      )

  pub append_partial-IsGrown :
      (p : Wanted) (h : ObjectHeader) (bytes : Bytes) (s : Receiving)
      → IsReceiving p s
      → IsOpen p h s
      → After
          (λ s'. IsBehind p h.digest bytes s' × IsOpen p h s' × IsGrown h bytes s')
          (append_partial h bytes s)
  unfolding append_partial
  append_partial-IsGrown p h bytes s now o =
      let grown = partial_of s h.digest ++ bytes in
      let Q =
        λ (s' : Receiving). IsBehind p h.digest bytes s' × IsOpen p h s' × IsGrown h bytes s' in
      let s' = record s { partials = Sorted.insert s.partials h.digest grown } in
      let here : partial_of s' h.digest ≡ grown =
        partial_of-insert s h.digest h.digest grown ∙ ground arith in
      let over = protocol "partial exceeds total size" in
      let last : Result (Unit {0}) × Receiving =
        (refuse_if (ltb h.total_size (length grown)) over, s') in
      let large = ltb h.total_size (saturating_add h.offset (length bytes)) in
      if-After Q (not (length (partial_of s h.digest) == h.offset))
        (err (protocol "non-contiguous resume offset"), s) (if large then (err over, s) else last)
        (λ _. now.verified)
        (λ contiguous.
          if-After Q large (err over, s) last (λ _. now.verified)
            (λ _. refuse-After Q (ltb h.total_size (length grown)) over s' now.verified (λ within. (
              grown-IsBehind p s h.digest bytes now,
              record {
                object = o.object;
                planned = o.planned;
                wanted = o.wanted;
                size = o.size;
                pending = o.pending;
              },
              record {
                end =
                    ap length here
                    ∙ ground (arith, length-append (partial_of s h.digest) bytes, contiguous);
                within =
                    ground (arith, length-append (partial_of s h.digest) bytes, contiguous, within);
              },
            ))))

  pub update-IsReceiving :
      (p : Wanted) (h : ObjectHeader) (bytes : Bytes) (s : Receiving) (found : Option hs.Hasher)
      → get s.hashers h.digest ≡ found
      → IsBehind p h.digest bytes s
      → IsOpen p h s
      → IsGrown h bytes s
      → After
          (λ s'. IsReceiving p s' × IsOpen p h s' × IsGrown h bytes s')
          (feed_found found h.digest bytes s)
  unfolding feed_found partial_of
  update-IsReceiving p h bytes s none was b o g = b.verified
  update-IsReceiving p h bytes s (some hasher) was b o g = (
    record {
      verified = b.verified;
      hashed = λ d x found. elim (Bool-cases (d == h.digest)) [
        | inl same ↦
            let at : h.digest ≡ d = ground (arith, same) in
            let fed : hs.update hasher bytes ≡ x = ground (
              arith,
              found,
              same,
              Sorted.get-insert s.hashers h.digest d (hs.update hasher bytes),
            ) in
            subst (λ k. Absorbed x (partial_of s k)) at
              (subst (λ x. Absorbed x (partial_of s h.digest)) fed (b.behind hasher was))
        | inr other ↦
            b.hashed d x
              (ground (
                arith,
                found,
                other,
                Sorted.get-insert s.hashers h.digest d (hs.update hasher bytes),
              ))
              other
      ];
      staged = b.staged;
      distinct = b.distinct;
    },
    record {
      object = o.object;
      planned = o.planned;
      wanted = o.wanted;
      size = o.size;
      pending = o.pending;
    },
    record { end = g.end; within = g.within },
  )
