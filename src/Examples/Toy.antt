-- ===== src/Examples/Toy.antt =====
-- A stand-in for the other crates, a capsule with one snapshot line, and its leases.
use abra.Crates.{Crates}
use abra.Prelude.{
  ℕ, zero, suc, ◌+◌, ◌-◌, ◌*◌, ◌/◌, ◌%◌, Bytes, ascii, Bool, true, List, [], ◌∷◌, some, none,
  nat_beq, ltb, list_beq, if◌then◌else◌,
}
use abra.Prelude.Int.{checked_sub}
use abra.Canonical.Write.{hex_digit}
use abra.Time.Civil.{timestamp_ms}
use abra.Capsule.Genesis
use abra.Capsule.Genesis.{Genesis}
use abra.Capsule.LeaseRecord
use abra.Capsule.LeaseRecord.{LeaseRecord, LeaseMode}
use abra.Canonical.Value.{end}
use abra.Manifest.Schema.{Scope, Manifest, RawManifest}
use abra.Prelude.Map.{get, insert, contains_key}
use abra.Capsule.LabelOp
use abra.Capsule.LabelOp.{LabelOp}
use abra.Capsule.State.{Capsule, SnapshotRecord, winning_lease, active_lease}
use abra.Capsule.Snapshot.{
  knows_all, resolve_record, resolve_pass, changes, resolve_loop, resolve_orphans, fork_name,
  write_result, insert_again, insert_new, insert_snapshot,
}
use abra.Capsule.Ancestry.{parents_at, search_from, search_fuel, descends, descends_from}
use abra.Capsule.Label.{
  loses, wins, is_fork, check_main, check_fork, check_user, check_name, set_label, write_label,
  apply_label,
}
use abra.Capsule.Lease.{
  check_schema, check_ttl, is_race, push_evidence, settle, settle_race, add_lease, add_winner,
  check_mode, continues, find_hash, from_genesis, after_winner, predecessor, signer_of, finish,
  accept_lease,
}

abbrev pub digest : ℕ → Bytes → ℕ
digest h [] = h
digest h (b ∷ s) = digest ((h * 31 + b) % 1000003) s

abbrev hex_value : ℕ → ℕ
hex_value c = if ltb c 58 then c - 48 else c - 87

abbrev pub hex_of : ℕ → ℕ → Bytes → Bytes
hex_of zero n tail = tail
hex_of (suc k) n tail = hex_of k (n / 16) (hex_digit (n % 16) ∷ tail)

-- Two hexadecimal digits to a byte.
abbrev pub halve : Bytes → Bytes
halve (a ∷ (b ∷ s)) = (16 * hex_value a + hex_value b) ∷ halve s
halve _ = []

-- A signature ends in its key's number.
instance abbrev pub toy : Crates
toy = record {
  blake3 = digest 7;
  is_key = λ k. ltb k 1000;
  verify_strict = λ key message sig. nat_beq (sig % 1000) key;
  verifying_key = λ secret. secret % 1000;
  sign = λ secret message. 1000 + secret % 1000;
  hex16 = λ n. hex_of 32 n [];
  hex32 = λ n. hex_of 64 n [];
  hex64 = λ n. hex_of 128 n [];
  hex_decode = λ s. some (halve s);
}

-- All that a call of `accept_lease` runs.
unfoldable pub lease_code : Unit {0}
unfolding Genesis.hash LeaseRecord.hash LeaseRecord.verify_with timestamp_ms checked_sub list_beq
    winning_lease check_schema check_ttl is_race push_evidence settle settle_race add_lease
    add_winner check_mode continues find_hash from_genesis after_winner predecessor signer_of finish
    accept_lease
lease_code = tt

abbrev pub spec : Bytes
spec = ascii "abra/0.1"

abbrev pub genesis : Genesis
genesis = record {
  spec = spec;
  record_type = ascii "capsule-genesis";
  capsule_id = 77;
  created_at = ascii "2026-01-01T00:00:00.000Z";
  created_by = 5;
  kind = ascii "dev.abra.workspace";
  title = ascii "demo";
  sig = 1005;
}

-- The capsule before its first lease.
abbrev pub empty : Capsule
empty = record {
  genesis = genesis;
  snapshots = [];
  leases = [];
  winner = none;
  labels = [];
  fork_counts = [];
  evidence = [];
}

abbrev pub lease : ℕ → ℕ → LeaseMode → ℕ → ℕ → LeaseRecord
lease holder epoch mode prev_hash sig = record {
  spec = spec;
  record_type = ascii "lease";
  capsule_id = 77;
  holder = holder;
  epoch = epoch;
  mode = mode;
  acquired_at = ascii "2026-01-01T00:00:00.000Z";
  expires_at = ascii "2026-01-02T00:00:00.000Z";
  prev_hash = prev_hash;
  sig = sig;
}

abbrev pub anyone : ℕ → LeaseMode → Bool
anyone p m = true

-- All that a call of `insert_snapshot` runs.
unfoldable pub snapshot_code : Unit {0}
unfolding lease_code active_lease list_beq get insert contains_key knows_all resolve_record
    resolve_pass changes resolve_loop resolve_orphans fork_name write_result insert_again insert_new
    insert_snapshot
snapshot_code = tt

-- All that a call of `apply_label` runs.
unfoldable pub label_code : Unit {0}
unfolding snapshot_code LabelOp.verify_label loses wins is_fork check_main check_fork check_user
    check_name set_label write_label apply_label parents_at search_from search_fuel descends
    descends_from
label_code = tt

abbrev pub manifest : ℕ → List ℕ → Manifest
manifest writer parents = record {
  spec = spec;
  scope = Scope.full;
  kind = ascii "dev.abra.workspace";
  title = ascii "demo";
  origin = record { peer_id = writer; name = none; adapter = none };
  created_at = ascii "2026-01-01T00:00:00.000Z";
  summary = none;
  link = none;
  thumbnail = none;
  capsule_id = some 77;
  parents = some parents;
  labels = none;
  provenance = none;
  files = some 1;
  recipes = none;
  native = none;
  payload = end;
  extensions = none;
  signature = 1000 + writer;
}

-- A snapshot with the id `id`, whose bytes are the one byte `id`.
abbrev pub raw : ℕ → ℕ → List ℕ → RawManifest
raw id writer parents = record { bytes = id ∷ []; manifest = manifest writer parents; id = id }

abbrev pub stored : ℕ → ℕ → List ℕ → Bool → SnapshotRecord
stored id writer parents orphan = record {
  raw = raw id writer parents;
  received_at = ascii "now";
  orphan = orphan;
}

abbrev pub label_op : Bytes → ℕ → ℕ → ℕ → LabelOp
label_op name seq snapshot_id sig = record {
  spec = spec;
  record_type = ascii "label-op";
  capsule_id = 77;
  seq = seq;
  op = ascii "set";
  name = name;
  snapshot_id = snapshot_id;
  lease_epoch = 1;
  at = ascii "2026-01-01T00:00:00.000Z";
  by = 5;
  sig = sig;
}
