-- ===== src/Examples/Queues.antt =====
-- A relay with one envelope (crates/abra-relay/src/lib.rs): the tests of the theorems on its queue.
use abra.Examples.Toy.{toy}
use abra.Prelude.{
  ◌≡◌, ◌≤◌, refl, Bytes, ascii, true, false, some, List, [], ◌∷◌, length, bytes_eq, ok, arith,
  list_beq,
}
use abra.Prelude.Map.{get, contains_key}
use abra.Net.Sorted.{insert, remove}
use abra.Cas.Tree.{bytes_lt}
use abra.Relay.{
  RelayCrates, RelayStore, usize_max, add_size, item_of, persist_new, remove_file, remove_found,
  remove_item, remove_all, expired_ids, expire, added, authorize, hmac_sha256, hmac_block,
  zero_bytes, constant_time_eq, differences, parse_envelope, id_of, add_new, enqueue_parsed,
  enqueue, poll, load_parsed, load_entry, load_entries, is_prefix, open_store,
}
use abra.Relay.Accounts.{total, IsAccounted, Request, serve, serve_all, serve_all-IsAccounted}
use abra.Relay.Polls.{deliverable, delivered, poll-deliverable}

abbrev tag : Bytes
tag = ascii "00112233445566778899aabbccddeeff00112233445566778899aabbccddeeff"

-- An envelope is its tag in this relay, and expires at 1000.
instance abbrev plain_relay : RelayCrates
plain_relay = record {
  sha256 = λ s. ascii "h";
  envelope_of = λ s. some (record { version = 1; tag = s; expires_at = 1000; sealed = [] });
}

abbrev empty_queue : RelayStore
empty_queue = record {
  secret = ascii "s";
  max_envelope_bytes = 100;
  max_storage_bytes = 1000;
  storage_bytes = 0;
  entries = some [];
  items = [];
}

empty_queue-IsAccounted : IsAccounted empty_queue
unfolding total get
empty_queue-IsAccounted = record {
  size = refl;
  cap = omega arith;
  distinct = tt;
  named = refl;
  stored = λ id. refl;
}

abbrev requests : List Request
requests =
    Request.enqueue_request (ascii "s") tag 10
    ∷ (Request.poll_request (ascii "s") (tag ∷ []) 20 true 5 100
        ∷ (Request.expire_request 2000 ∷ []))

serve_all-IsAccounted_example : IsAccounted (serve_all requests empty_queue)
serve_all-IsAccounted_example = serve_all-IsAccounted requests empty_queue empty_queue-IsAccounted

abbrev queue : RelayStore
queue = (enqueue (ascii "s") tag 10 empty_queue).1

unfoldable relay_code : Unit {0}
unfolding add_size item_of persist_new remove_file remove_found remove_item remove_all expired_ids
    expire added authorize hmac_sha256 hmac_block zero_bytes constant_time_eq differences
    parse_envelope id_of add_new enqueue_parsed enqueue get contains_key insert remove bytes_lt
    list_beq
relay_code = tt

enqueues : (enqueue (ascii "s") tag 10 empty_queue).0 ≡ ok (id_of tag)
unfolding relay_code
enqueues = refl

knows : authorize queue (ascii "s") ≡ ok tt
unfolding relay_code
knows = refl

queue-IsAccounted : IsAccounted queue
unfolding serve_all serve
queue-IsAccounted =
    serve_all-IsAccounted (Request.enqueue_request (ascii "s") tag 10 ∷ []) empty_queue
      empty_queue-IsAccounted

is_small : length (expire queue 20).items ≤ usize_max
unfolding relay_code
is_small = omega arith

is_capped : queue.max_storage_bytes ≤ usize_max
unfolding relay_code
is_capped = omega arith

poll-deliverable_example :
    get (delivered (poll (ascii "s") (tag ∷ []) 20 false queue).0) (id_of tag)
    ≡ deliverable (tag ∷ []) 20 (get queue.items (id_of tag))
poll-deliverable_example =
    poll-deliverable (ascii "s") (tag ∷ []) 20 false queue (id_of tag) queue-IsAccounted knows
      is_capped is_small

-- The envelope is there after a restart.
restarts : open_store (ascii "s") 100 1000 ((id_of tag, tag) ∷ []) 20 ≡ ok queue
unfolding relay_code open_store load_entries load_entry load_parsed is_prefix
restarts = refl
