-- ===== src/Examples/Trust.antt =====
-- A device with a full peer 5, a guest 9 and its certificate (crates/abra-net/src/auth.rs): the tests
-- of the theorems on trust.
use abra.Examples.Toy.{toy}
use abra.Identity.{Identity, peer_id, verify, signature_preimage}
use abra.Prelude.{
  ℕ, ◌≡◌, ◌≤◌, ◌↔◌, ◌+◌, ◌<◌, ◌^◌, refl, nat_eq, bytes_eq, list_beq, ascii, Bytes, Bool, true,
  false, none, some, List, [], ◌∷◌, length, ok, all, leb, is_ok, arith,
}
use abra.Prelude.Map.{get, contains_key}
use abra.Net.Sorted.{IsDistinct, insert, remove, extend, bytes_ord, nat_ord}
use abra.Cas.Tree.{bytes_lt}
use abra.Net.Time.{parse_time}
use abra.Net.Auth.Scopes.{Role, MeshProfile, Direction, Scopes}
use abra.Net.Auth.Pairing.{PairTicket, PairRequest, verify_request}
use abra.Net.Auth.Trust.{
  TrustedPeer, TrustDisk, TrustStore, default, read_disk, reload, version_of, merge_disk_state,
  merge_bound, merge_maps, merge_peers, merge_peer, take_over, drop_settled, still_awaited,
}
use abra.Net.Auth.Trust.Merge.{winner, later, merge_disk_state-winner}
use abra.Net.Auth.Save.{
  save, saved, prune_expired, enforce_limits, remove_revoked_guests, peer_stands,
  certificate_stands, names_guest, names_certificate, evict_oldest, evict_loop, evict_one,
  oldest_of,
}
use abra.Net.Auth.Save.Oldest.{evict_oldest-oldest}
use abra.Net.Auth.Pairs.{
  Hints, commit, locked, accept_pair_request, accept_request, validate_addresses, spend_ticket,
  trust_paired, advance_peer_version, paired, remove_peer, remove_found,
}
use abra.Net.Auth.Revocations.{
  revoke_token, revoke, sign_found, find_certificate, has_token, consume_control_nonce,
  consume_fresh, fresh_nonces,
}
use abra.Net.Auth.Authorize.{authorize_offer}
use abra.Net.Auth.Authorize.Permits.{Permits, authorize_offer-Permits}
use abra.Net.Auth.History.{Op, Call, run_calls}
use abra.Net.Auth.History.Revoked.{IsBarred, revoke_token-stays}
use abra.Net.Auth.History.Tickets.{accept_pair_request-once}
use abra.Net.Auth.History.Removed.{saves, remove_peer-stays}
use abra.Net.Auth.History.Nonces.{is_recent, consume_control_nonce-once, run_calls-nonce_stays}

instance abbrev plain_hints : Hints
plain_hints = record {
  validate_peer_address = λ a. ok tt;
  merge_peer_address_hints = λ known a. none;
  peer_address_has_direct_hint = λ a. true;
}

abbrev pub everything : Scopes
everything = record {
  capsules = ascii "*" ∷ [];
  kinds = ascii "*" ∷ [];
  send = true;
  receive = true;
  lease_acquire = true;
  lease_takeover = false;
}

abbrev pub full_peer : TrustedPeer
full_peer = record {
  peer_id = 5;
  name = ascii "desk";
  role = Role.full;
  x25519_pk = 1;
  relay_key = none;
  token_id = none;
  scopes = none;
  expires_at = none;
  addresses = [];
}

abbrev pub token : Bytes
token = ascii "00112233445566778899aabbccddeeff"

abbrev pub guest_peer : TrustedPeer
guest_peer = record full_peer {
  peer_id = 9;
  role = Role.guest;
  token_id = some token;
  scopes = some everything;
  expires_at = some (ascii "2026-01-02T00:00:00.000Z");
}

abbrev pub noon : ℕ
noon = 1767268800000

abbrev pub ticket : PairTicket
ticket = record {
  v = 1;
  record_type = ascii "pair-ticket";
  peer_id = 1;
  name = ascii "host";
  ticket_id = token;
  issued_at = ascii "2026-01-01T12:00:00.000Z";
  expires_at = ascii "2026-01-01T12:10:00.000Z";
  x25519_pk = 1;
  relay_key = none;
  addresses = [];
  sig = 1001;
}

abbrev pub home : TrustDisk
home = record default {
  peers = (5, full_peer) ∷ ((9, guest_peer) ∷ []);
  pending_tickets = (token, ticket) ∷ [];
}

abbrev pub store : TrustStore
store = record { disk = home; file = some home }

-- All that a save runs.
unfoldable pub save_code : Unit {0}
unfolding save saved read_disk reload merge_disk_state merge_maps merge_peers merge_peer merge_bound
    take_over drop_settled still_awaited version_of extend insert remove get contains_key bytes_lt
    list_beq prune_expired enforce_limits remove_revoked_guests peer_stands certificate_stands
    names_guest names_certificate evict_oldest evict_loop evict_one oldest_of commit locked
    parse_time
save_code = tt

authorize_offer-Permits_example :
    (authorize_offer home 9 5 (some 77) (ascii "dev.abra.workspace") Direction.send noon ≡ ok tt)
    ↔ Permits home 9 5 (some 77) (ascii "dev.abra.workspace") Direction.send noon
authorize_offer-Permits_example =
    authorize_offer-Permits home 9 5 (some 77) (ascii "dev.abra.workspace") Direction.send noon

merge_disk_state-winner_example :
    (get (merge_disk_state default home).peers 9
      ≡ winner (version_of default 9) (version_of home 9) (get default.peers 9) (get home.peers 9))
    × (version_of (merge_disk_state default home) 9
        ≡ later (version_of default 9) (version_of home 9))
merge_disk_state-winner_example = merge_disk_state-winner default home 9

-- A handle that was loaded before saves after each of the calls below.
abbrev stale : List Call
stale = record { handle = 3; op = Op.profile_op MeshProfile.fleet; clock = noon } ∷ []

abbrev owner : Identity
owner = record { signing = 1 }

revokes : (revoke_token token noon owner noon store).0 ≡ ok tt
unfolding save_code revoke_token revoke sign_found find_certificate has_token peer_id
revokes = refl

revoke_token-stays_example :
    IsBarred token
      (read_disk (run_calls stale (λ i. home) (revoke_token token noon owner noon store).1.file))
revoke_token-stays_example =
    revoke_token-stays token noon owner noon store stale (λ i. home) revokes

abbrev request : PairRequest
request = record {
  message_type = ascii "pair-request";
  ticket_id = token;
  peer_id = 7;
  name = ascii "laptop";
  nonce = token;
  x25519_pk = 2;
  relay_key = none;
  addresses = [];
  sig = 1007;
}

abbrev agree : ℕ → ℕ → Bool
agree a b = true

accepts : is_ok (accept_pair_request request 7 noon true agree noon store).0 ≡ true
unfolding save_code accept_pair_request accept_request validate_addresses verify_request verify
    signature_preimage spend_ticket trust_paired advance_peer_version paired
accepts = refl

accept_pair_request-once_example :
    is_ok
      (accept_pair_request request 7 (noon + 1) false agree noon (record {
        disk = home;
        file =
            run_calls stale
              (λ i. home)
              (accept_pair_request request 7 noon true agree noon store).1.file;
      })).0
    ≡ false
accept_pair_request-once_example =
    accept_pair_request-once request request 7 7 noon (noon + 1) true false agree agree noon noon
      store stale (λ i. home) home accepts refl

removes : (remove_peer 9 noon store).0 ≡ ok true
unfolding save_code remove_peer remove_found
removes = refl

never_seen : version_of home 9 + 1 < 2 ^ 64
unfolding version_of get
never_seen = omega arith

is_older :
    all (λ (x : ℕ × TrustDisk). leb (version_of x.1 9) (version_of home 9)) ((noon, home) ∷ [])
    ≡ true
unfolding version_of get
is_older = refl

remove_peer-stays_example :
    get (saves ((noon, home) ∷ []) (read_disk (remove_peer 9 noon store).1.file)).peers 9 ≡ none
remove_peer-stays_example =
    remove_peer-stays 9 noon store ((noon, home) ∷ []) (unfold read_disk in never_seen) removes
      (unfold read_disk in is_older)

takes : (consume_control_nonce (ascii "n1") noon noon store).0 ≡ ok tt
unfolding save_code consume_control_nonce consume_fresh fresh_nonces
takes = refl

-- A handle that was opened before, and one that took the nonce over from the file.
abbrev between : List (ℕ × TrustDisk)
between = (noon, home) ∷ ((noon, record home { control_nonces = (ascii "n1", noon) ∷ [] }) ∷ [])

all_recent : all (is_recent (ascii "n1") (noon + 600000)) between ≡ true
unfolding get list_beq
all_recent = refl

consume_control_nonce-once_example :
    is_ok
      (consume_control_nonce (ascii "n1") (noon + 600000) noon (record {
        disk = default;
        file =
            some (
              saves between
                (read_disk (consume_control_nonce (ascii "n1") noon noon store).1.file));
      })).0
    ≡ false
consume_control_nonce-once_example =
    consume_control_nonce-once (ascii "n1") noon (noon + 600000) noon noon store between default
      takes (omega arith) all_recent

abbrev old_nonce : TrustDisk
old_nonce = record home { control_nonces = (ascii "n0", 0) ∷ [] }

abbrev new_nonce : List Call
new_nonce = record { handle = 0; op = Op.nonce_op (ascii "n1") noon; clock = noon } ∷ []

held : contains_key (read_disk (some old_nonce)).control_nonces (ascii "n0") ≡ true
unfolding contains_key get read_disk list_beq
held = refl

run_calls-nonce_stays_example :
    contains_key
      (read_disk (run_calls new_nonce (λ i. home) (some old_nonce))).control_nonces
      (ascii "n0")
    ≡ true
run_calls-nonce_stays_example =
    run_calls-nonce_stays new_nonce (λ i. home) (some old_nonce) (ascii "n0") held

abbrev ages : List (ℕ × ℕ)
ages = (1, 30) ∷ ((2, 10) ∷ ((3, 20) ∷ []))

distinct : IsDistinct ages
unfolding get
distinct = (refl, (refl, (refl, tt)))

evicts : evict_oldest (λ (a : ℕ). a) ages 2 ≡ (1, 30) ∷ ((3, 20) ∷ [])
unfolding save_code
evicts = refl

evict_oldest-oldest_example :
    (length (evict_oldest (λ (a : ℕ). a) ages 2) ≡ 2)
    × ((k v : ℕ) → get (evict_oldest (λ (a : ℕ). a) ages 2) k ≡ some v → get ages k ≡ some v)
    × ((k j v w : ℕ)
        → get ages k ≡ some v
        → get (evict_oldest (λ (a : ℕ). a) ages 2) k ≡ none
        → get (evict_oldest (λ (a : ℕ). a) ages 2) j ≡ some w
        → v ≤ w)
evict_oldest-oldest_example = evict_oldest-oldest (λ (a : ℕ). a) ages 2 distinct
