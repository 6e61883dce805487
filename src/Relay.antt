-- ===== src/Relay.antt =====
-- `RelayStore` of crates/abra-relay/src/lib.rs: the queue of sealed envelopes that wait for a device.
-- The durable queue is the directory `entries`, as a map from file names to bytes; errors of the file
-- system are not modelled. An error of the relay is a text, here of the kind `invalid`.
pub mod Accounts
pub mod Polls
use abra.Crates.{Crates}
use abra.Prelude.{
  ℕ, zero, suc, ◌+◌, ◌-◌, ◌*◌, ◌^◌, Bytes, ascii, Bool, true, false, not, ◌&&◌, ◌||◌, Option, none,
  some, List, [], ◌∷◌, ◌++◌, any, all, length, take, map, retain, ◌==◌, nat_eq, bytes_eq, ltb, leb,
  Result, ok, err, invalid, ◌>>=◌, ◌>>◌, refuse_if, ok_or, if◌then◌else◌,
}
use Prim.Native.Nat.{bit_xor, bit_or}
use abra.Prelude.Map.{Map, get, contains_key}
use abra.Net.Sorted.{insert, remove, bytes_ord}

pub record OpaqueEnvelope : Type 0 where
  pub version : ℕ
  pub tag : Bytes
  pub expires_at : ℕ
  pub sealed : Bytes

-- What the relay takes from serde_json and sha2.
pub record RelayCrates : Type 0 where
  -- `Sha256::digest`
  pub sha256 : Bytes → Bytes
  -- `serde_json::from_slice::<OpaqueEnvelope>(bytes).ok()`
  pub envelope_of : Bytes → Option OpaqueEnvelope

pub record Item : Type 0 where
  pub envelope : Bytes
  pub expires_at : ℕ
  pub tag : Bytes

pub record RelayStore : Type 0 where
  pub secret : Bytes
  pub max_envelope_bytes : ℕ
  pub max_storage_bytes : ℕ
  pub storage_bytes : ℕ
  -- the files of `entries_dir`, where the store is durable
  pub entries : Option (Map Bytes Bytes)
  pub items : Map Bytes Item

abbrev pub max_ttl_ms : ℕ
max_ttl_ms = 30 * 86400000

abbrev pub usize_max : ℕ
usize_max = 2 ^ 64 - 1

-- `RelayStore::new`
unfoldable pub new_store : Bytes → ℕ → RelayStore
new_store secret max = record {
  secret = secret;
  max_envelope_bytes = max;
  max_storage_bytes = usize_max;
  storage_bytes = 0;
  entries = none;
  items = [];
}

-- `usize::checked_add`, with its error
unfoldable pub add_size : ℕ → ℕ → Result ℕ
add_size a b =
    if ltb usize_max (a + b) then err (invalid "relay storage size overflow") else ok (a + b)

-- `constant_time_eq`: the differences of the bytes, joined
unfoldable pub differences : Bytes → Bytes → ℕ
differences (x ∷ a) (y ∷ b) = bit_or (bit_xor x y) (differences a b)
differences _ _ = 0

unfoldable pub constant_time_eq : Bytes → Bytes → Bool
constant_time_eq a b = length a == length b && differences a b == 0

-- `n` zeros
unfoldable pub zero_bytes : ℕ → Bytes
zero_bytes zero = []
zero_bytes (suc n) = 0 ∷ zero_bytes n

abbrev pub is_hexdigit : ℕ → Bool
is_hexdigit b = leb 48 b && leb b 57 || (leb 65 b && leb b 70 || (leb 97 b && leb b 102))

unfoldable pub item_of : Bytes → OpaqueEnvelope → Item
item_of envelope parsed = record {
  envelope = envelope;
  expires_at = parsed.expires_at;
  tag = parsed.tag;
}

-- `persist_new` and the removal of a file
unfoldable pub persist_new : Option (Map Bytes Bytes) → Bytes → Bytes → Option (Map Bytes Bytes)
persist_new none id envelope = none
persist_new (some files) id envelope = some (insert files id envelope)

unfoldable pub remove_file : Option (Map Bytes Bytes) → Bytes → Option (Map Bytes Bytes)
remove_file none id = none
remove_file (some files) id = some (remove files id)

unfoldable pub remove_found : RelayStore → Bytes → Option Item → Bool × RelayStore
remove_found s id none = (false, s)
remove_found s id (some item) = (
  true,
  record s {
    entries = remove_file s.entries id;
    items = remove s.items id;
    storage_bytes = s.storage_bytes - length item.envelope;
  },
)

-- `remove`
unfoldable pub remove_item : RelayStore → Bytes → Bool × RelayStore
remove_item s id = remove_found s id (get s.items id)

-- The loop of `expire` over the ids that were collected
unfoldable pub remove_all : RelayStore → List Bytes → RelayStore
remove_all s [] = s
remove_all s (id ∷ ids) = remove_all (remove_item s id).1 ids

unfoldable pub expired_ids : ℕ → Map Bytes Item → List Bytes
expired_ids now items =
    map (λ (e : Bytes × Item). e.0) (retain (λ (e : Bytes × Item). leb e.1.expires_at now) items)

unfoldable pub expire : RelayStore → ℕ → RelayStore
expire s now = remove_all s (expired_ids now s.items)

-- What the first loop of `poll_bounded` has collected.
pub record Collected : Type 0 where
  pub ids : List Bytes
  pub bytes : ℕ

-- One round: the ids are collected in the order of the items.
unfoldable pub collect_item : ℕ → ℕ → Bytes → Item → Collected → Collected
collect_item max_items max_bytes id item g =
    let next_bytes = g.bytes + length item.envelope in
    if leb max_items (length g.ids) || (ltb usize_max next_bytes || ltb max_bytes next_bytes)
    then g
    else record { ids = g.ids ++ (id ∷ []); bytes = next_bytes }

unfoldable pub collect : List Bytes → ℕ → ℕ → Map Bytes Item → Collected → Collected
collect tags max_items max_bytes [] g = g
collect tags max_items max_bytes ((id, item) ∷ items) g =
    collect tags max_items max_bytes items
      (if any (λ t. t == item.tag) tags then collect_item max_items max_bytes id item g else g)

-- What the second loop puts before the rest, for an id that it has looked up.
unfoldable pub found_first :
    Bytes → Option Item → List (Bytes × Bytes) × RelayStore → List (Bytes × Bytes) × RelayStore
found_first id none rest = rest
found_first id (some item) (found, s) = ((id, item.envelope) ∷ found, s)

-- The second loop, for the ids that were collected
unfoldable pub fetch : Bool → RelayStore → List Bytes → List (Bytes × Bytes) × RelayStore
fetch delete_on_fetch s [] = ([], s)
fetch delete_on_fetch s (id ∷ ids) =
    found_first id (get s.items id)
      (fetch delete_on_fetch (if delete_on_fetch then (remove_item s id).1 else s) ids)

-- The rest of `poll_bounded`, after the test of the secret
unfoldable pub poll_authorized :
    Result (Unit {0})
    → List Bytes
    → ℕ
    → Bool
    → ℕ
    → ℕ
    → RelayStore
    → Result (List (Bytes × Bytes)) × RelayStore
poll_authorized (err e) tags now delete_on_fetch max_items max_bytes s = (err e, s)
poll_authorized (ok u) tags now delete_on_fetch max_items max_bytes s =
    let t = expire s now in
    let g = collect tags max_items max_bytes t.items (record { ids = []; bytes = 0 }) in
    let done = fetch delete_on_fetch t g.ids in (ok done.0, done.1)

unfoldable pub delete_authorized : Result (Unit {0}) → Bytes → RelayStore → Result Bool × RelayStore
delete_authorized (err e) id s = (err e, s)
delete_authorized (ok u) id s = (ok (remove_item s id).0, (remove_item s id).1)

-- The store after `enqueue`; where it fails, what has expired is gone all the same.
unfoldable pub added : Bytes → Result RelayStore → RelayStore → Result Bytes × RelayStore
added id (err e) s = (err e, s)
added id (ok t) s = (ok id, t)

unfoldable pub is_prefix : Bytes → Bytes → Bool
is_prefix [] text = true
is_prefix (p ∷ prefix) [] = false
is_prefix (p ∷ prefix) (b ∷ text) = p == b && is_prefix prefix text

-- A file of `open` that is an envelope
unfoldable pub load_parsed : ℕ → Bytes → Bytes → OpaqueEnvelope → RelayStore → Result RelayStore
load_parsed now name envelope parsed s =
    if leb parsed.expires_at now
    then ok (record s { entries = remove_file s.entries name })
    else (do
      size ← add_size s.storage_bytes (length envelope)
      refuse_if (ltb s.max_storage_bytes size) (invalid "stored relay queue exceeds storage cap")
      ok (record s { storage_bytes = size; items = insert s.items name (item_of envelope parsed) }))

module _ ⦃c : Crates⦄ where
  -- `blake3::hash(&envelope).to_hex()`
  unfoldable pub id_of : Bytes → Bytes
  id_of envelope = c.hex32 (c.blake3 envelope)

module _ ⦃r : RelayCrates⦄ where
  -- The key of the hash, on 64 bytes
  unfoldable pub hmac_block : Bytes → Bytes
  unfolding zero_bytes
  hmac_block key =
      let short = (if ltb 64 (length key) then r.sha256 key else key) in
      take 64 (short ++ zero_bytes 64)

  unfoldable pub hmac_sha256 : Bytes → Bytes → Bytes
  hmac_sha256 key message =
      let inner = map (λ b. bit_xor 54 b) (hmac_block key) in
      let outer = map (λ b. bit_xor 92 b) (hmac_block key) in
      r.sha256 (outer ++ r.sha256 (inner ++ message))

  unfoldable pub authorize : RelayStore → Bytes → Result (Unit {0})
  authorize s supplied =
      let expected = hmac_sha256 s.secret (ascii "abra-relay-deploy-v1") in
      let candidate = hmac_sha256 supplied (ascii "abra-relay-deploy-v1") in
      if constant_time_eq expected candidate then ok tt else err (invalid "unauthorized")

  unfoldable pub parse_envelope : Bytes → ℕ → Result OpaqueEnvelope
  parse_envelope envelope max = do
    refuse_if (ltb max (length envelope)) (invalid "envelope exceeds relay size cap")
    parsed ← ok_or (r.envelope_of envelope) (invalid "invalid relay envelope")
    refuse_if
        (not (parsed.version == 1)
          || (not (length parsed.tag == 64) || not (all is_hexdigit parsed.tag)))
        (invalid "invalid relay envelope")
    ok parsed

  unfoldable pub poll_bounded :
      Bytes
      → List Bytes
      → ℕ
      → Bool
      → ℕ
      → ℕ
      → RelayStore
      → Result (List (Bytes × Bytes)) × RelayStore
  poll_bounded secret tags now delete_on_fetch max_items max_bytes s =
      poll_authorized (authorize s secret) tags now delete_on_fetch max_items max_bytes s

  unfoldable pub poll :
      Bytes → List Bytes → ℕ → Bool → RelayStore → Result (List (Bytes × Bytes)) × RelayStore
  poll secret tags now delete_on_fetch s =
      poll_bounded secret tags now delete_on_fetch usize_max usize_max s

  unfoldable pub delete : Bytes → Bytes → RelayStore → Result Bool × RelayStore
  delete secret id s = delete_authorized (authorize s secret) id s

  module _ ⦃c : Crates⦄ where
    -- The end of `enqueue`, on the store that has been expired
    unfoldable pub add_new : Bytes → OpaqueEnvelope → RelayStore → Result (RelayStore)
    add_new envelope parsed s = do
      next_size ← add_size s.storage_bytes (length envelope)
      refuse_if (ltb s.max_storage_bytes next_size) (invalid "relay storage cap reached")
      ok (record s {
        entries = persist_new s.entries (id_of envelope) envelope;
        items = insert s.items (id_of envelope) (item_of envelope parsed);
        storage_bytes = next_size;
      })

    unfoldable pub enqueue_parsed :
        Bytes → ℕ → Result OpaqueEnvelope → RelayStore → Result Bytes × RelayStore
    enqueue_parsed envelope now (err e) s = (err e, s)
    enqueue_parsed envelope now (ok parsed) s =
        if leb parsed.expires_at now || ltb max_ttl_ms (parsed.expires_at - now)
        then (err (invalid "invalid relay TTL"), s)
        else (if contains_key (expire s now).items (id_of envelope)
            then (ok (id_of envelope), expire s now)
            else added (id_of envelope) (add_new envelope parsed (expire s now)) (expire s now))

    unfoldable pub enqueue : Bytes → Bytes → ℕ → RelayStore → Result Bytes × RelayStore
    enqueue secret envelope now s =
        enqueue_parsed envelope now
          (authorize s secret >> parse_envelope envelope s.max_envelope_bytes) s

    -- One file of the loop of `open`; a temporary file is an interrupted write.
    unfoldable pub load_entry : ℕ → Bytes → Bytes → RelayStore → Result RelayStore
    load_entry now name envelope s =
        if is_prefix (ascii ".tmp-") name
        then ok (record s { entries = remove_file s.entries name })
        else (do
          refuse_if (not (name == id_of envelope)) (invalid "relay queue entry has invalid name")
          parsed ← parse_envelope envelope s.max_envelope_bytes
          load_parsed now name envelope parsed s)

    unfoldable pub load_entries : ℕ → Map Bytes Bytes → RelayStore → Result RelayStore
    load_entries now [] s = ok s
    load_entries now ((name, envelope) ∷ files) s = do
      s' ← load_entry now name envelope s
      load_entries now files s'

    -- `RelayStore::open`, for the files of the directory
    unfoldable pub open_store : Bytes → ℕ → ℕ → Map Bytes Bytes → ℕ → Result RelayStore
    open_store secret max_envelope_bytes max_storage_bytes files now = do
      refuse_if (ltb max_storage_bytes max_envelope_bytes)
          (invalid "relay storage cap must be at least the envelope size cap")
      load_entries now files (record {
        secret = secret;
        max_envelope_bytes = max_envelope_bytes;
        max_storage_bytes = max_storage_bytes;
        storage_bytes = 0;
        entries = some files;
        items = [];
      })
