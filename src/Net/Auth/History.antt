-- ===== src/Net/Auth/History.antt =====
-- The operations of any number of handles of one device (crates/abra-net/src/auth.rs), as calls in
-- the order in which they take effect.
pub mod Keeps
pub mod Revoked
pub mod Tickets
pub mod Removed
pub mod Nonces
use abra.Crates.{Crates}
use abra.Identity.{Identity}
use abra.Prelude.{
  ℕ, Bytes, Bool, true, false, Option, none, some, List, [], ◌∷◌, ◌==◌, nat_eq, Result, ok, err,
  if◌then◌else◌, arith, ◌≡◌, refl, Option-cases, Result-cases, Bool-cases, inl, inr, not, ◌||◌,
  length, ltb, ascii, ◌>>=◌, bytes_eq,
}
use abra.Prelude.Map.{Map, get, contains_key}
use abra.Net.Auth.Scopes.{MeshProfile}
use abra.Net.Auth.Certificates.{BindCertificate, Revocation}
use abra.Net.Auth.Enrollment.{EnrollBind}
use abra.Net.Auth.Pairing.{PairTicket, PairRequest, PairAccept, PairConfirm}
use abra.Net.Auth.Trust.{LocalRole, TrustedPeer, TrustDisk, TrustStore, read_disk, reload}
use abra.Net.Auth.Save.{saved, save}
use abra.Net.Auth.Pairs.{
  Hints, commit, locked, set_mesh_profile, set_local_role, insert_peer, remove_found, remove_peer,
  register_ticket, accept_pair_request, confirm_found, confirm_pair, complete_pair_as_joiner,
}
use abra.Net.Auth.Addresses.{update_found, update_addresses}
use abra.Net.Auth.Guests.{
  install_bind_certificate, finish_bind, bind_checked, bind_enrollment, check_bind, certify,
}
use abra.Net.Auth.Revocations.{
  apply_revocations, save_changed, revoke_token, consume_fresh, consume_control_nonce,
}

pub data Op : Type 0 where
  reload_op : Op
  profile_op : MeshProfile → Op
  role_op : LocalRole → Op
  insert_op : TrustedPeer → Op
  remove_op : ℕ → Op
  addresses_op : ℕ → List Bytes → Op
  register_op : PairTicket → Op
  accept_op : PairRequest → ℕ → ℕ → Bool → (ℕ → ℕ → Bool) → Op
  confirm_op : PairConfirm → ℕ → Op
  join_op : PairTicket → PairAccept → Bytes → Op
  bind_op : EnrollBind → ℕ → ℕ → Identity → Op
  install_op : ℕ → BindCertificate → ℕ → Op
  revoke_op : Bytes → ℕ → Identity → Op
  apply_op : List Revocation → ℕ → Op
  nonce_op : Bytes → ℕ → Op

pub record Call : Type 0 where
  pub handle : ℕ
  pub op : Op
  pub clock : ℕ

module _ ⦃hints : Hints⦄ ⦃c : Crates⦄ where
  unfoldable pub run_op : Op → ℕ → TrustStore → TrustStore
  run_op Op.reload_op clock s = reload s
  run_op (Op.profile_op profile) clock s = (set_mesh_profile profile clock s).1
  run_op (Op.role_op role) clock s = (set_local_role role clock s).1
  run_op (Op.insert_op p) clock s = (insert_peer p clock s).1
  run_op (Op.remove_op peer) clock s = (remove_peer peer clock s).1
  run_op (Op.addresses_op peer list) clock s = (update_addresses peer list clock s).1
  run_op (Op.register_op ticket) clock s = (register_ticket ticket clock s).1
  run_op (Op.accept_op r from now at_once confirm) clock s =
      (accept_pair_request r from now at_once confirm clock s).1
  run_op (Op.confirm_op confirm from) clock s = (confirm_pair confirm from clock s).1
  run_op (Op.join_op ticket accept nonce) clock s =
      (complete_pair_as_joiner ticket accept nonce clock s).1
  run_op (Op.bind_op b from now issuer) clock s = (bind_enrollment b from now issuer clock s).1
  run_op (Op.install_op issuer x now) clock s = (install_bind_certificate issuer x now clock s).1
  run_op (Op.revoke_op id now issuer) clock s = (revoke_token id now issuer clock s).1
  run_op (Op.apply_op records now) clock s = (apply_revocations records now clock s).1
  run_op (Op.nonce_op nonce now) clock s = (consume_control_nonce nonce now clock s).1

  -- The file after the calls, for handles with the given states.
  unfoldable pub run_calls : List Call → (ℕ → TrustDisk) → Option TrustDisk → Option TrustDisk
  run_calls [] disks file = file
  run_calls (call ∷ calls) disks file =
      let s = run_op call.op call.clock (record { disk = disks call.handle; file = file }) in
      run_calls calls (λ i. if i == call.handle then s.disk else disks i) s.file
