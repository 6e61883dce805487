-- ===== src/Relay/Polls.antt =====
-- What a poll of the relay returns (crates/abra-relay/src/lib.rs).
use abra.Crates.{Crates}
use abra.Prelude.{
  ℕ, ◌+◌, ◌≤◌, ◌≡◌, refl, ◌∙◌, Bytes, Bool, true, false, not, ◌&&◌, ◌||◌, Option, none, some, List,
  [], ◌∷◌, ◌++◌, any, length, ◌==◌, bytes_eq, leb, is_some_and, Result, ok, err, length-append,
  Option-cases, Bool-cases, inl, inr, arith, if◌then◌else◌,
}
use abra.Prelude.Map.{Map, get}
use abra.Net.Sorted.{get-remove, IsDistinct}
use abra.Relay.{
  RelayCrates, Item, RelayStore, usize_max, remove_found, remove_item, remove_all, expired_ids,
  expire, Collected, collect_item, collect, found_first, fetch, poll_authorized, poll_bounded, poll,
  authorize,
}
use abra.Relay.Accounts.{envelope_at, total, IsAccounted, expire-IsAccounted}

abbrev is_in : Bytes → List Bytes → Bool
is_in k ids = any (λ i. i == k) ids

get-remove_item :
    (s : RelayStore) (id k : Bytes)
    → get (remove_item s id).1.items k ≡ (if id == k then none else get s.items k)
unfolding remove_item remove_found
get-remove_item s id k = elim (Option-cases (get s.items id)) [
  | inl absent ↦ ground (arith, absent, bytes_eq.same_iff id k)
  | inr (item, there) ↦ ground (arith, there, get-remove s.items id k)
]

get-remove_all :
    (s : RelayStore) (ids : List Bytes) (k : Bytes)
    → get (remove_all s ids).items k ≡ (if is_in k ids then none else get s.items k)
unfolding remove_all
get-remove_all s [] k = refl
get-remove_all s (id ∷ ids) k =
    ground (arith, get-remove_all (remove_item s id).1 ids k, get-remove_item s id k)

expired_ids-absent :
    (now : ℕ) (m : Map Bytes Item) (k : Bytes)
    → get m k ≡ none
    → is_in k (expired_ids now m) ≡ false
unfolding expired_ids get
expired_ids-absent now [] k h = refl
expired_ids-absent now ((j, item) ∷ m) k h = ground (arith, expired_ids-absent now m k)

expired_ids-held :
    (now : ℕ) (m : Map Bytes Item) (k : Bytes)
    → IsDistinct m
    → is_in k (expired_ids now m) ≡ is_some_and (get m k) (λ item. leb item.expires_at now)
unfolding expired_ids get
expired_ids-held now [] k h = refl
expired_ids-held now ((j, item) ∷ m) k (fresh, h) =
    ground (arith, expired_ids-held now m k h, expired_ids-absent now m k, bytes_eq.same_iff j k)

-- What `expire` leaves of an item.
abbrev live : ℕ → Option Item → Option Item
live now none = none
live now (some item) = if leb item.expires_at now then none else some item

get-expire :
    (s : RelayStore) (now : ℕ) (k : Bytes)
    → IsDistinct s.items
    → get (expire s now).items k ≡ live now (get s.items k)
unfolding expire
get-expire s now k h =
    ground (arith, get-remove_all s (expired_ids now s.items) k, expired_ids-held now s.items k h)

get-fetch :
    (deletes : Bool) (s : RelayStore) (ids : List Bytes) (k : Bytes)
    → get (fetch deletes s ids).0 k ≡ (if is_in k ids then envelope_at (get s.items k) else none)
unfolding fetch found_first get
get-fetch deletes s [] k = refl
get-fetch true s (id ∷ ids) k = elim (Option-cases (get s.items id)) [
  | inl absent ↦ ground (
    arith,
    absent,
    get-fetch true (remove_item s id).1 ids k,
    get-remove_item s id k,
    bytes_eq.same_iff id k,
  )
  | inr (item, there) ↦ ground (
    arith,
    there,
    get-fetch true (remove_item s id).1 ids k,
    get-remove_item s id k,
    bytes_eq.same_iff id k,
  )
]
get-fetch false s (id ∷ ids) k = elim (Option-cases (get s.items id)) [
  | inl absent ↦ ground (arith, absent, get-fetch false s ids k, bytes_eq.same_iff id k)
  | inr (item, there) ↦ ground (arith, there, get-fetch false s ids k, bytes_eq.same_iff id k)
]

any-append_one :
    (ids : List Bytes) (id k : Bytes) → is_in k (ids ++ (id ∷ [])) ≡ (is_in k ids || id == k)
any-append_one [] id k = ground arith
any-append_one (i ∷ ids) id k = ground (arith, any-append_one ids id k)

abbrev is_tagged : List Bytes → Item → Bool
is_tagged tags item = any (λ t. t == item.tag) tags

-- There is room for the items that are left.
abbrev HasRoom : Map Bytes Item → Collected → Type 0
HasRoom m g = (g.bytes + total m ≤ usize_max) × (length g.ids + length m ≤ usize_max)

collect_item-room :
    (id : Bytes) (item : Item) (m : Map Bytes Item) (g : Collected)
    → HasRoom ((id, item) ∷ m) g
    → collect_item usize_max usize_max id item g
      ≡ record { ids = g.ids ++ (id ∷ []); bytes = g.bytes + length item.envelope }
unfolding collect_item total
collect_item-room id item m g (h, l) = ground arith

collect-held :
    (tags : List Bytes) (m : Map Bytes Item) (g : Collected) (k : Bytes)
    → IsDistinct m
    → HasRoom m g
    → is_in k (collect tags usize_max usize_max m g).ids
      ≡ (is_in k g.ids || is_some_and (get m k) (is_tagged tags))
unfolding collect get total
collect-held tags [] g k h room = ground arith
collect-held tags ((id, item) ∷ m) g k (fresh, h) (bytes, count) =
    let g' : Collected = record {
      ids = g.ids ++ (id ∷ []);
      bytes = g.bytes + length item.envelope;
    } in
    let taken : collect_item usize_max usize_max id item g ≡ g' =
      collect_item-room id item m g (unfold total in bytes, count) in
    let grown = length-append g.ids (id ∷ []) in
    elim (Bool-cases (is_tagged tags item)) [
      | inl e ↦
          let ih = collect-held tags m g' k h (omega (arith, bytes), omega (arith, grown, count)) in
          ground (arith, e, taken, ih, any-append_one g.ids id k, bytes_eq.same_iff id k)
      | inr e ↦
          let ih = collect-held tags m g k h (omega (arith, bytes), omega (arith, count)) in
          ground (arith, e, ih, bytes_eq.same_iff id k)
    ]

cap_of-remove_item :
    (s : RelayStore) (id : Bytes) → (remove_item s id).1.max_storage_bytes ≡ s.max_storage_bytes
unfolding remove_item remove_found
cap_of-remove_item s id = elim (Option-cases (get s.items id)) [
  | inl absent ↦ rw absent refl
  | inr (item, there) ↦ rw there refl
]

cap_of-remove_all :
    (s : RelayStore) (ids : List Bytes) → (remove_all s ids).max_storage_bytes ≡ s.max_storage_bytes
unfolding remove_all
cap_of-remove_all s [] = refl
cap_of-remove_all s (id ∷ ids) =
    cap_of-remove_all (remove_item s id).1 ids ∙ cap_of-remove_item s id

cap_of-expire : (s : RelayStore) (now : ℕ) → (expire s now).max_storage_bytes ≡ s.max_storage_bytes
unfolding expire
cap_of-expire s now = cap_of-remove_all s (expired_ids now s.items)

-- What a poll delivers of an item: its envelope, if it is asked for and has not expired.
abbrev pub deliverable : List Bytes → ℕ → Option Item → Option Bytes
deliverable tags now none = none
deliverable tags now (some item) =
    if any (λ t. t == item.tag) tags && not (leb item.expires_at now)
    then some item.envelope
    else none

abbrev pub delivered : Result (List (Bytes × Bytes)) → Map Bytes Bytes
delivered (err e) = []
delivered (ok found) = found

module _ ⦃c : Crates⦄ ⦃r : RelayCrates⦄ where
  -- A poll with the right secret returns, under its digest, each envelope that has one of the tags and
  -- has not expired, and no other, whether it deletes them or not, given that the relay's accounts
  -- hold, and that its cap and the number of its envelopes fit in 64 bits.
  pub poll-deliverable :
      (secret : Bytes) (tags : List Bytes) (now : ℕ) (deletes : Bool) (s : RelayStore) (id : Bytes)
      → IsAccounted s
      → authorize s secret ≡ ok tt
      → s.max_storage_bytes ≤ usize_max
      → length (expire s now).items ≤ usize_max
      → get (delivered (poll secret tags now deletes s).0) id
        ≡ deliverable tags now (get s.items id)
  unfolding poll poll_bounded poll_authorized
  poll-deliverable secret tags now deletes s id h known within count =
      let t = expire s now in
      let h' = expire-IsAccounted s now h in
      let g : Collected = record { ids = []; bytes = 0 } in
      let size : 0 + total t.items ≤ usize_max =
        omega (arith, h'.size, h'.cap, cap_of-expire s now, within) in
      ground (
        arith,
        known,
        collect-held tags t.items g id h'.distinct (size, omega (arith, count)),
        get-fetch deletes t (collect tags usize_max usize_max t.items g).ids id,
        get-expire s now id h.distinct,
      )
