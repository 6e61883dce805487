-- ===== src/Relay/Accounts.antt =====
-- The accounts of the relay's queue (crates/abra-relay/src/lib.rs): its size, its names and its files.
use mathlib.Core.Path.{subst}
use abra.Crates.{Crates}
use abra.Prelude.{
  ℕ, ◌+◌, ◌-◌, ◌≤◌, ◌≡◌, refl, Bytes, Bool, true, false, ◌||◌, Option, none, some, List, [], ◌∷◌,
  all, length, ◌==◌, bytes_eq, ltb, leb, Result, ok, err, >>=-eq-ok, >>-parts, refuse_if,
  Option-cases, Bool-cases, inl, inr, arith,
}
use abra.Prelude.Map.{Map, get, contains_key}
use abra.Net.Sorted.{
  insert, remove, get-insert, get-remove, bytes_ord, IsDistinct, remove-IsDistinct,
  insert-IsDistinct,
}
use abra.Relay.{
  RelayCrates, OpaqueEnvelope, Item, RelayStore, add_size, item_of, persist_new, remove_file,
  remove_found, remove_item, remove_all, expired_ids, expire, fetch, found_first, poll_authorized,
  poll_bounded, delete_authorized, delete, id_of, add_new, enqueue_parsed, added, enqueue,
  max_ttl_ms, authorize,
}

-- The bytes of all envelopes.
unfoldable pub total : Map Bytes Item → ℕ
total [] = 0
total ((k, item) ∷ m) = length item.envelope + total m

abbrev pub envelope_at : Option Item → Option Bytes
envelope_at none = none
envelope_at (some item) = some item.envelope

-- A durable store has a file for each item and no other.
abbrev pub IsStored : Option (Map Bytes Bytes) → Map Bytes Item → Type 0
IsStored none items = Unit
IsStored (some files) items = (id : Bytes) → get files id ≡ envelope_at (get items id)

module _ ⦃c : Crates⦄ where
  abbrev pub are_named : Map Bytes Item → Bool
  are_named items = all (λ (e : Bytes × Item). e.0 == id_of e.1.envelope) items

  -- The size is that of the envelopes and within the cap; each item has the digest of its envelope
  -- for its id, and its file.
  pub record IsAccounted (s : RelayStore) : Type 0 where
    pub size : s.storage_bytes ≡ total s.items
    pub cap : s.storage_bytes ≤ s.max_storage_bytes
    pub distinct : IsDistinct s.items
    pub named : are_named s.items ≡ true
    pub stored : IsStored s.entries s.items

total-remove_absent :
    (m : Map Bytes Item) (k : Bytes) → get m k ≡ none → total (remove m k) ≡ total m
unfolding total remove get
total-remove_absent [] k h = refl
total-remove_absent ((j, v) ∷ m) k h = ground (arith, total-remove_absent m k)

total-remove :
    (m : Map Bytes Item) (k : Bytes) (item : Item)
    → IsDistinct m
    → get m k ≡ some item
    → total (remove m k) + length item.envelope ≡ total m
unfolding total remove get
total-remove [] k item d h = cc
total-remove ((j, v) ∷ m) k item (fresh, d) h =
    ground (arith, total-remove m k item d, total-remove_absent m k, bytes_eq.same_iff j k)

total-insert :
    (m : Map Bytes Item) (k : Bytes) (item : Item)
    → get m k ≡ none
    → total (insert m k item) ≡ total m + length item.envelope
unfolding total insert get
total-insert [] k item h = omega arith
total-insert ((j, v) ∷ m) k item h = ground (arith, total-insert m k item)

module _ (p : Bytes × Item → Bool) where
  all-remove : (m : Map Bytes Item) (k : Bytes) → all p m ≡ true → all p (remove m k) ≡ true
  unfolding remove
  all-remove [] k h = refl
  all-remove (x ∷ m) k h = ground (arith, all-remove m k)

  all-insert :
      (m : Map Bytes Item) (k : Bytes) (item : Item)
      → all p m ≡ true
      → p (k, item) ≡ true
      → all p (insert m k item) ≡ true
  unfolding insert
  all-insert [] k item h q = ground arith
  all-insert ((j, v) ∷ m) k item h q = ground (arith, all-insert m k item, bytes_eq.same_iff j k)

IsStored-remove_file :
    (entries : Option (Map Bytes Bytes)) (items : Map Bytes Item) (k : Bytes)
    → IsStored entries items
    → IsStored (remove_file entries k) (remove items k)
unfolding remove_file
IsStored-remove_file none items k h = tt
IsStored-remove_file (some files) items k h =
    λ id. ground (arith, h id, get-remove files k id, get-remove items k id)

IsStored-persist_new :
    (entries : Option (Map Bytes Bytes)) (items : Map Bytes Item) (k : Bytes) (item : Item)
    → IsStored entries items
    → IsStored (persist_new entries k item.envelope) (insert items k item)
unfolding persist_new
IsStored-persist_new none items k item h = tt
IsStored-persist_new (some files) items k item h =
    λ id. ground (arith, h id, get-insert files k id item.envelope, get-insert items k id item)

module _ ⦃c : Crates⦄ where
  remove_found-IsAccounted :
      (s : RelayStore) (id : Bytes) (o : Option Item)
      → get s.items id ≡ o
      → IsAccounted s
      → IsAccounted (remove_found s id o).1
  unfolding remove_found
  remove_found-IsAccounted s id none there h = h
  remove_found-IsAccounted s id (some item) there h =
      let less = total-remove s.items id item h.distinct there in
      record {
        size = omega (arith, h.size, less);
        cap = omega (arith, h.cap);
        distinct = remove-IsDistinct s.items id h.distinct;
        named = all-remove (λ (e : Bytes × Item). e.0 == id_of e.1.envelope) s.items id h.named;
        stored = IsStored-remove_file s.entries s.items id h.stored;
      }

  remove_item-IsAccounted :
      (s : RelayStore) (id : Bytes) → IsAccounted s → IsAccounted (remove_item s id).1
  unfolding remove_item
  remove_item-IsAccounted s id h = remove_found-IsAccounted s id (get s.items id) refl h

  remove_all-IsAccounted :
      (s : RelayStore) (ids : List Bytes) → IsAccounted s → IsAccounted (remove_all s ids)
  unfolding remove_all
  remove_all-IsAccounted s [] h = h
  remove_all-IsAccounted s (id ∷ ids) h =
      remove_all-IsAccounted (remove_item s id).1 ids (remove_item-IsAccounted s id h)

  pub expire-IsAccounted : (s : RelayStore) (now : ℕ) → IsAccounted s → IsAccounted (expire s now)
  unfolding expire
  expire-IsAccounted s now h = remove_all-IsAccounted s (expired_ids now s.items) h

  found_first-store :
      (id : Bytes) (o : Option Item) (rest : List (Bytes × Bytes) × RelayStore)
      → (found_first id o rest).1 ≡ rest.1
  unfolding found_first
  found_first-store id none rest = refl
  found_first-store id (some item) (found, s) = refl

  fetch-IsAccounted :
      (delete_on_fetch : Bool) (s : RelayStore) (ids : List Bytes)
      → IsAccounted s
      → IsAccounted (fetch delete_on_fetch s ids).1
  unfolding fetch
  fetch-IsAccounted deletes s [] h = h
  fetch-IsAccounted true s (id ∷ ids) h =
      rw (found_first-store id (get s.items id) (fetch true (remove_item s id).1 ids))
        (fetch-IsAccounted true (remove_item s id).1 ids (remove_item-IsAccounted s id h))
  fetch-IsAccounted false s (id ∷ ids) h =
      rw (found_first-store id (get s.items id) (fetch false s ids))
        (fetch-IsAccounted false s ids h)

  module _ ⦃r : RelayCrates⦄ where
    add_new-IsAccounted :
        (envelope : Bytes) (parsed : OpaqueEnvelope) (s t : RelayStore)
        → get s.items (id_of envelope) ≡ none
        → IsAccounted s
        → add_new envelope parsed s ≡ ok t
        → IsAccounted t
    unfolding add_new add_size item_of
    add_new-IsAccounted envelope parsed s t fresh h done =
        let (size, sized, rest) = >>=-eq-ok (add_size s.storage_bytes (length envelope)) _ done in
        let (within, made) = >>-parts (refuse_if (ltb s.max_storage_bytes size) _) _ rest in
        let item = item_of envelope parsed in
        let t' = record s {
          entries = persist_new s.entries (id_of envelope) envelope;
          items = insert s.items (id_of envelope) item;
          storage_bytes = size;
        } in
        let same : t' ≡ t = ground (arith, made) in
        let h' : IsAccounted t' = record {
          size = ground (arith, sized, h.size, total-insert s.items (id_of envelope) item fresh);
          cap = ground (arith, within);
          distinct = insert-IsDistinct s.items (id_of envelope) item fresh h.distinct;
          named =
              all-insert (λ (e : Bytes × Item). e.0 == id_of e.1.envelope) s.items (id_of envelope)
                item h.named ((bytes_eq.same_iff (id_of envelope) (id_of envelope)).1 refl);
          stored = IsStored-persist_new s.entries s.items (id_of envelope) item h.stored;
        } in
        subst IsAccounted same h'

    added-IsAccounted :
        (id : Bytes) (x : Result RelayStore) (s : RelayStore)
        → IsAccounted s
        → ((t : RelayStore) → x ≡ ok t → IsAccounted t)
        → IsAccounted (added id x s).1
    unfolding added
    added-IsAccounted id (err e) s h all = h
    added-IsAccounted id (ok t) s h all = all t refl

    enqueue_parsed-IsAccounted :
        (envelope : Bytes) (now : ℕ) (x : Result OpaqueEnvelope) (s : RelayStore)
        → IsAccounted s
        → IsAccounted (enqueue_parsed envelope now x s).1
    unfolding enqueue_parsed contains_key
    enqueue_parsed-IsAccounted envelope now (err e) s h = h
    enqueue_parsed-IsAccounted envelope now (ok parsed) s h =
        let h' = expire-IsAccounted s now h in
        elim (Bool-cases (leb parsed.expires_at now || ltb max_ttl_ms (parsed.expires_at - now))) [
          | inl e ↦ rw e h
          | inr e ↦ rw e (elim (Option-cases (get (expire s now).items (id_of envelope))) [
            | inr (item, there) ↦ rw there h'
            | inl fresh ↦ rw fresh (
                added-IsAccounted (id_of envelope) (add_new envelope parsed (expire s now))
                  (expire s now) h'
                  (λ t made. add_new-IsAccounted envelope parsed (expire s now) t fresh h' made))
          ])
        ]

    poll_authorized-IsAccounted :
        (x : Result (Unit {0})) (tags : List Bytes) (now : ℕ) (deletes : Bool)
        (max_items max_bytes : ℕ) (s : RelayStore)
        → IsAccounted s
        → IsAccounted (poll_authorized x tags now deletes max_items max_bytes s).1
    unfolding poll_authorized
    poll_authorized-IsAccounted (err e) tags now deletes max_items max_bytes s h = h
    poll_authorized-IsAccounted (ok u) tags now deletes max_items max_bytes s h =
        fetch-IsAccounted deletes (expire s now) _ (expire-IsAccounted s now h)

    delete_authorized-IsAccounted :
        (x : Result (Unit {0})) (id : Bytes) (s : RelayStore)
        → IsAccounted s
        → IsAccounted (delete_authorized x id s).1
    unfolding delete_authorized
    delete_authorized-IsAccounted (err e) id s h = h
    delete_authorized-IsAccounted (ok u) id s h = remove_item-IsAccounted s id h

-- The requests that the relay serves.
pub data Request : Type 0 where
  enqueue_request : Bytes → Bytes → ℕ → Request
  poll_request : Bytes → List Bytes → ℕ → Bool → ℕ → ℕ → Request
  delete_request : Bytes → Bytes → Request
  expire_request : ℕ → Request

module _ ⦃c : Crates⦄ ⦃r : RelayCrates⦄ where
  unfoldable pub serve : Request → RelayStore → RelayStore
  serve (Request.enqueue_request secret envelope now) s = (enqueue secret envelope now s).1
  serve (Request.poll_request secret tags now deletes max_items max_bytes) s =
      (poll_bounded secret tags now deletes max_items max_bytes s).1
  serve (Request.delete_request secret id) s = (delete secret id s).1
  serve (Request.expire_request now) s = expire s now

  unfoldable pub serve_all : List Request → RelayStore → RelayStore
  serve_all [] s = s
  serve_all (q ∷ qs) s = serve_all qs (serve q s)

  serve-IsAccounted : (q : Request) (s : RelayStore) → IsAccounted s → IsAccounted (serve q s)
  unfolding serve enqueue poll_bounded delete
  serve-IsAccounted (Request.enqueue_request secret envelope now) s h =
      enqueue_parsed-IsAccounted envelope now _ s h
  serve-IsAccounted (Request.poll_request secret tags now deletes max_items max_bytes) s h =
      poll_authorized-IsAccounted (authorize s secret) tags now deletes max_items max_bytes s h
  serve-IsAccounted (Request.delete_request secret id) s h =
      delete_authorized-IsAccounted (authorize s secret) id s h
  serve-IsAccounted (Request.expire_request now) s h = expire-IsAccounted s now h

  -- In every history of requests from a store whose accounts hold, as those of the empty one do, the
  -- relay's size is exactly that of the envelopes it holds and stays within the cap, each envelope is
  -- under its digest, and the directory holds the same envelopes.
  pub serve_all-IsAccounted :
      (qs : List Request) (s : RelayStore) → IsAccounted s → IsAccounted (serve_all qs s)
  unfolding serve_all
  serve_all-IsAccounted [] s h = h
  serve_all-IsAccounted (q ∷ qs) s h =
      serve_all-IsAccounted qs (serve q s) (serve-IsAccounted q s h)
