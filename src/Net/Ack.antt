-- ===== src/Net/Ack.antt =====
-- `Ack` of crates/abra-net/src/delivery.rs.
use abra.Crates.{Crates}
use abra.Identity.{Identity, verify, sign, peer_id}
use abra.Prelude.{
  ℕ, Bytes, ascii, not, ◌++◌, length, ◌==◌, nat_eq, Result, ok, protocol, ◌>>=◌, ◌>>◌, refuse_if,
  ok_or,
}
use abra.Prelude.BigEndian.{to_be_bytes}
use abra.Net.Time.{format_time}

pub record Ack : Type 0 where
  pub message_type : Bytes
  pub offer_id : Bytes
  pub snapshot_id : ℕ
  pub received_at : Bytes
  pub shelf : Bytes
  pub sig : ℕ

module _ ⦃c : Crates⦄ where
  unfoldable pub ack_payload : Bytes → ℕ → ℕ → ℕ → Bytes → Result Bytes
  unfolding to_be_bytes
  ack_payload offer_id snapshot_id sender receiver shelf = do
    offer ← ok_or (c.hex_decode offer_id) (protocol "bad offer id")
    refuse_if (not (length offer == 16)) (protocol "bad offer id")
    ok (
        offer
        ++ (to_be_bytes 32 snapshot_id
            ++ (to_be_bytes 32 sender ++ (to_be_bytes 32 receiver ++ shelf))))

  -- `Ack::sign`
  unfoldable pub create : Bytes → ℕ → Bytes → ℕ → ℕ → Identity → Result Ack
  unfolding ack_payload sign peer_id format_time
  create offer_id snapshot_id shelf now sender receiver = do
    payload ← ack_payload offer_id snapshot_id sender (peer_id receiver) shelf
    ok (record {
      message_type = ascii "ack";
      offer_id = offer_id;
      snapshot_id = snapshot_id;
      received_at = format_time now;
      shelf = shelf;
      sig = sign receiver (ascii "ack") payload;
    })

  -- `Ack::verify`
  unfoldable pub verify_ack : Ack → ℕ → ℕ → Result (Unit {0})
  verify_ack a sender intended_receiver = do
    payload ← ack_payload a.offer_id a.snapshot_id sender intended_receiver a.shelf
    verify intended_receiver (ascii "ack") payload a.sig
