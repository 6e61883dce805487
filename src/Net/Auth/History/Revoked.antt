-- ===== src/Net/Auth/History/Revoked.antt =====
-- A revoked token stays revoked (crates/abra-net/src/auth.rs).
use abra.Crates.{Crates}
use abra.Identity.{Identity}
use abra.Prelude.{
  ℕ, ◌≡◌, Bytes, true, false, ◌||◌, some, List, nat_eq, bytes_eq, ok, >>=-eq-ok, arith,
  Result-cases, inl, inr,
}
use abra.Prelude.Map.{get, contains_key}
use abra.Net.Sorted.{get-insert, get-retain_some, bytes_ord, nat_ord}
use abra.Net.Auth.Trust.{
  TrustedPeer, StoredBindCertificate, TrustDisk, TrustStore, read_disk, reload, merge_disk_state,
}
use abra.Net.Auth.Trust.Fields.{merged_revoked}
use abra.Net.Auth.Save.{
  saved, save, prune_expired, enforce_limits, remove_revoked_guests, peer_stands,
  certificate_stands,
}
use abra.Net.Auth.Pairs.{Hints, commit}
use abra.Net.Auth.Revocations.{revoke, sign_found, revoke_token}
use abra.Net.Auth.History.{Call, run_calls}
use abra.Net.Auth.History.Keeps.{run_calls-keeps}

-- A token that is revoked, with no peer and no certificate that holds it.
pub record IsBarred (token : Bytes) (d : TrustDisk) : Type 0 where
  pub listed : contains_key d.revoked token ≡ true
  pub no_peer : (k : ℕ) (t : TrustedPeer) → get d.peers k ≡ some t → ¬ (t.token_id ≡ some token)
  pub no_certificate :
      (k : ℕ) (x : StoredBindCertificate)
      → get d.bind_certificates k ≡ some x
      → ¬ (x.certificate.token_id ≡ token)

peer_stands-token :
    (d : TrustDisk) (k : ℕ) (t : TrustedPeer) (token : Bytes)
    → peer_stands d k t ≡ true
    → t.token_id ≡ some token
    → contains_key d.revoked token ≡ false
unfolding peer_stands
peer_stands-token d k t token h e = ground arith

certificate_stands-token :
    (d : TrustDisk) (k : ℕ) (x : StoredBindCertificate) (token : Bytes)
    → certificate_stands d k x ≡ true
    → x.certificate.token_id ≡ token
    → contains_key d.revoked token ≡ false
unfolding certificate_stands
certificate_stands-token d k x token h e = ground arith

-- After `remove_revoked_guests` no guest has a revoked token.
remove_revoked_guests-IsBarred :
    (d : TrustDisk) (token : Bytes)
    → contains_key d.revoked token ≡ true
    → IsBarred token (remove_revoked_guests d)
unfolding remove_revoked_guests
remove_revoked_guests-IsBarred d token h = record {
  listed = h;
  no_peer = λ k t there held. absurd (
      ground (
        arith,
        peer_stands-token d k t token (get-retain_some (peer_stands d) d.peers k t there) held,
      ));
  no_certificate = λ k x there held. absurd (
      ground (
        arith,
        certificate_stands-token d k x token
            (get-retain_some (certificate_stands d) d.bind_certificates k x there) held,
      ));
}

saved-IsBarred :
    (now : ℕ) (mine theirs : TrustDisk) (token : Bytes)
    → (contains_key mine.revoked token || contains_key theirs.revoked token) ≡ true
    → IsBarred token (saved now mine theirs)
unfolding saved enforce_limits prune_expired
saved-IsBarred now mine theirs token h =
    remove_revoked_guests-IsBarred
      (enforce_limits (prune_expired now (merge_disk_state mine theirs))) token
      (ground (arith, merged_revoked mine theirs token))

saved-keeps :
    (token : Bytes) (now : ℕ) (mine theirs : TrustDisk)
    → IsBarred token theirs
    → IsBarred token (saved now mine theirs)
saved-keeps token now mine theirs h =
    saved-IsBarred now mine theirs token (ground (arith, h.listed))

module _ ⦃hints : Hints⦄ ⦃c : Crates⦄ where
  revoke-listed :
      (id : Bytes) (now : ℕ) (issuer : Identity) (d d' : TrustDisk)
      → revoke id now issuer d ≡ ok (tt, d')
      → contains_key d'.revoked id ≡ true
  unfolding revoke contains_key
  revoke-listed id now issuer d d' h =
      let (revocations, signed, rest) = >>=-eq-ok (sign_found id now issuer _ d.revocations) _ h in
      ground (arith, rest, get-insert d.revoked id id tt, bytes_eq.same_iff id id)

  revoke_token-IsBarred :
      (id : Bytes) (now : ℕ) (issuer : Identity) (clock : ℕ) (s : TrustStore)
      → (revoke_token id now issuer clock s).0 ≡ ok tt
      → IsBarred id (read_disk (revoke_token id now issuer clock s).1.file)
  unfolding revoke_token commit save read_disk
  revoke_token-IsBarred id now issuer clock s done =
      elim (Result-cases (revoke id now issuer (reload s).disk)) [
        | inl (e, failed) ↦ absurd (ground (arith, failed))
        | inr ((u, d), revoked) ↦ rw revoked (
            saved-IsBarred clock d (read_disk s.file) id
              (ground (arith, revoke-listed id now issuer (reload s).disk d revoked)))
      ]

  -- After a call of revoke_token that succeeds, whatever calls follow on any handles of the device,
  -- older ones included, the file lists the token as revoked and has no peer and no bind certificate
  -- with it.
  pub revoke_token-stays :
      (id : Bytes) (now : ℕ) (issuer : Identity) (clock : ℕ) (s : TrustStore) (calls : List Call)
      (disks : ℕ → TrustDisk)
      → (revoke_token id now issuer clock s).0 ≡ ok tt
      → IsBarred id (read_disk (run_calls calls disks (revoke_token id now issuer clock s).1.file))
  revoke_token-stays id now issuer clock s calls disks done =
      run_calls-keeps (IsBarred id) (saved-keeps id) calls disks _
        (revoke_token-IsBarred id now issuer clock s done)
