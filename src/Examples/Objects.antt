-- ===== src/Examples/Objects.antt =====
-- Objects of a store, one of them damaged, and native state to restore
-- (crates/abra-core/src/cas.rs and restore.rs): the tests of their theorems.
use abra.Examples.Toy.{toy, digest}
use abra.Examples.Trees.{folder}
use abra.Prelude.{
  ℕ, ◌≡◌, ◌↔◌, refl, Bytes, ascii, Bool, false, true, Option, none, some, List, [], ◌∷◌, arith, ok,
  length, list_beq, is_ok, Result, if◌then◌else◌, ◌==◌, nat_eq,
}
use abra.Prelude.Map
use abra.Cas.Tree.{encode}
use abra.Cas.Store.{Files, NoCollision, put, verify_object, get, put-get}
use abra.Manifest.Schema.{Fingerprint, NativeBlobRef}
use abra.Restore.{NativeStatus, plan_native, is_empty, matching, same_fingerprint, with_role}
use abra.Restore.Eligible.{AreReady, plan_native-AreReady}

-- The digest of "state" with intact bytes, and a damaged file.
abbrev state : Bytes
state = ascii "state"

abbrev state_id : ℕ
state_id = digest 7 state

abbrev files : Files
files = (state_id, state) ∷ ((5, ascii "damaged") ∷ [])

files-NoCollision : NoCollision files state
unfolding Map.get
files-NoCollision other there same = ground arith

put-get_example :
    get (put files state).1 state_id
    ≡ (if digest 7 state == state_id then ok state else get files state_id)
put-get_example = put-get files state state_id files-NoCollision

damaged : get files 5 ≡ Result.err (abra.Prelude.corrupt "blob" "content does not hash to its name")
unfolding get Map.get
damaged = refl

nothing-NoCollision : NoCollision [] (encode folder)
unfolding Map.get
nothing-NoCollision other there same = ground arith

abbrev host : Fingerprint
host = record {
  os = ascii "linux";
  arch = ascii "x86_64";
  hypervisor = ascii "kvm";
  snapshot_format_major = 1;
  cpu_template = ascii "T2";
  cpu_identity = ascii "a";
}

abbrev memory : NativeBlobRef
memory = record { role = ascii "memory"; blob = state_id; bytes = 5; fingerprint = host }

abbrev foreign : NativeBlobRef
foreign = record {
  role = ascii "memory";
  blob = 5;
  bytes = 7;
  fingerprint = record host { arch = ascii "arm64" };
}

plan_native-AreReady_example :
    (((plan_native files (foreign ∷ (memory ∷ [])) (some host) (ascii "memory" ∷ [])).status
        ≡ NativeStatus.eligible)
      × ((plan_native files (foreign ∷ (memory ∷ [])) (some host) (ascii "memory" ∷ [])).artifacts
          ≡ memory ∷ []))
    ↔ ((t : Fingerprint) × (some host ≡ some t)
        × (is_empty {A = Bytes} (ascii "memory" ∷ []) ≡ false)
        × AreReady files (matching t (foreign ∷ (memory ∷ []))) (ascii "memory" ∷ []) (memory ∷ []))
plan_native-AreReady_example =
    plan_native-AreReady files (foreign ∷ (memory ∷ [])) (some host) (ascii "memory" ∷ [])
      (memory ∷ [])

memory-AreReady :
    AreReady files (matching host (foreign ∷ (memory ∷ []))) (ascii "memory" ∷ []) (memory ∷ [])
unfolding matching same_fingerprint with_role list_beq verify_object Map.get
memory-AreReady = (record { only = refl; intact = refl }, tt)
