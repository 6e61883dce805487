-- ===== src/Net/Auth/Pairing.antt =====
-- `PairTicket` and the pairing messages of crates/abra-net/src/auth.rs.
use abra.Crates.{Crates}
use abra.Identity.{Identity, verify, sign, peer_id}
use abra.Canonical.Value.{string, array, Fields, end, field}
use abra.Capsule.Signed.{u64, hash32, sig64}
use abra.Prelude.{
  ℕ, Bytes, ascii, not, ◌||◌, Option, List, ◌++◌, ◌+◌, ◌%◌, ◌^◌, length, ◌==◌, nat_eq, ltb, Result,
  ok, protocol, ◌>>=◌, ◌>>◌, refuse_if, ok_or,
}
use abra.Prelude.BigEndian.{to_be_bytes}
use abra.Net.Time.{format_time}
use abra.Net.Auth.Signing.{unsigned, strings, optional, key_value}

pub record PairTicket : Type 0 where
  pub v : ℕ
  pub record_type : Bytes
  pub peer_id : ℕ
  pub name : Bytes
  pub ticket_id : Bytes
  pub issued_at : Bytes
  pub expires_at : Bytes
  pub x25519_pk : ℕ
  pub relay_key : Option ℕ
  pub addresses : List Bytes
  pub sig : ℕ

pub record PairRequest : Type 0 where
  pub message_type : Bytes
  pub ticket_id : Bytes
  pub peer_id : ℕ
  pub name : Bytes
  pub nonce : Bytes
  pub x25519_pk : ℕ
  pub relay_key : Option ℕ
  pub addresses : List Bytes
  pub sig : ℕ

pub record PairAccept : Type 0 where
  pub message_type : Bytes
  pub peer_id : ℕ
  pub name : Bytes
  pub nonce : Bytes

pub record PairConfirm : Type 0 where
  pub message_type : Bytes
  pub ticket_id : Bytes

module _ ⦃c : Crates⦄ where
  unfoldable pub ticket_fields : PairTicket → Fields
  ticket_fields x = field (ascii "v") (u64 x.v) (
      field (ascii "type") (string x.record_type) (
        field (ascii "peer_id") (hash32 x.peer_id) (
          field (ascii "name") (string x.name) (
            field (ascii "ticket_id") (string x.ticket_id) (
              field (ascii "issued_at") (string x.issued_at) (
                field (ascii "expires_at") (string x.expires_at) (
                  field (ascii "x25519_pk") (hash32 x.x25519_pk) (
                    optional (ascii "relay_key") (key_value x.relay_key) (
                      field (ascii "addresses") (array (strings x.addresses))
                        (field (ascii "sig") (sig64 x.sig) end))))))))))

  -- `PairTicket::mint`, for a fresh id
  unfoldable pub mint_ticket :
      Bytes → Bytes → ℕ → Option ℕ → List Bytes → ℕ → ℕ → Identity → Result PairTicket
  mint_ticket ticket_id name x25519_pk relay_key addresses now ttl_ms id = do
    refuse_if (ltb 600000 ttl_ms) (protocol "pair ticket TTL exceeds 10m")
    let x : PairTicket = record {
      v = 1;
      record_type = ascii "pair-ticket";
      peer_id = peer_id id;
      name = name;
      ticket_id = ticket_id;
      issued_at = format_time now;
      expires_at = format_time ((now + ttl_ms) % 2 ^ 64);
      x25519_pk = x25519_pk;
      relay_key = relay_key;
      addresses = addresses;
      sig = 0;
    }
    payload ← unsigned (ticket_fields x) (ascii "sig")
    ok (record x { sig = sign id (ascii "pair-ticket") payload })

  -- `PairRequest::sign`; the nonce is the number of its 16 bytes
  unfoldable pub sign_request :
      Bytes → Bytes → ℕ → Option ℕ → List Bytes → ℕ → Identity → Result PairRequest
  sign_request ticket_id name x25519_pk relay_key addresses nonce id = do
    ticket ← ok_or (c.hex_decode ticket_id) (protocol "bad ticket id")
    ok (record {
      message_type = ascii "pair-request";
      ticket_id = ticket_id;
      peer_id = peer_id id;
      name = name;
      nonce = c.hex16 nonce;
      x25519_pk = x25519_pk;
      relay_key = relay_key;
      addresses = addresses;
      sig = sign id (ascii "pair-request") (ticket ++ to_be_bytes 16 nonce);
    })

  -- `PairRequest::verify`
  unfoldable pub verify_request : PairRequest → Result (Unit {0})
  verify_request x = do
    ticket ← ok_or (c.hex_decode x.ticket_id) (protocol "bad ticket id")
    nonce ← ok_or (c.hex_decode x.nonce) (protocol "bad pair nonce")
    refuse_if (not (length ticket == 16) || not (length nonce == 16))
        (protocol "bad pair request ids")
    verify x.peer_id (ascii "pair-request") (ticket ++ nonce) x.sig
