-- ===== src/Net/Auth/Save.antt =====
-- `TrustStore::save` of crates/abra-net/src/auth.rs, after the merge: what is pruned, evicted and
-- revoked before the file is written.
pub mod Oldest
use abra.Prelude.{
  ℕ, zero, suc, Bytes, Bool, true, false, not, ◌&&◌, Option, none, some, List, [], ◌∷◌, any, length,
  ◌==◌, nat_eq, bytes_eq, Eq, ltb, leb, is_none_or, Result, ok, err, if◌then◌else◌,
}
use abra.Prelude.Map.{Map, contains_key, values}
use abra.Net.Time.{parse_time}
use abra.Net.Sorted.{remove, retain_entries}
use abra.Net.Auth.Certificates.{BindCertificate, Revocation}
use abra.Net.Auth.Trust.{
  TrustedPeer, StoredRevocation, StoredBindCertificate, TrustDisk, TrustStore, read_disk,
  merge_disk_state,
}

-- `parse_time(end).is_ok_and(|until| until >= now)`
abbrev pub lasts : Result ℕ → ℕ → Bool
lasts (ok until) now = leb now until
lasts (err e) now = false

unfoldable pub prune_expired : ℕ → TrustDisk → TrustDisk
prune_expired now disk = record disk {
  revocations =
      retain_entries (λ k stored. lasts (parse_time stored.relevant_until) now) disk.revocations;
  bind_certificates =
      retain_entries (λ k stored. lasts (parse_time stored.certificate.expires_at) now)
        disk.bind_certificates;
}

-- `parse_time(end).unwrap_or(0)`
abbrev pub time_or_zero : Result ℕ → ℕ
time_or_zero (ok t) = t
time_or_zero (err e) = 0

module _ {ℓ κ} {K : Type ℓ} {V : Type κ} (age : V → ℕ) where
  -- `min_by_key`: the first of the entries with the least age
  unfoldable pub oldest_of : K × V → Map K V → K × V
  oldest_of best [] = best
  oldest_of best (e ∷ m) = oldest_of (if ltb (age e.1) (age best.1) then e else best) m

  module _ ⦃e : Eq K⦄ where
    -- One round of the loop of `evict_oldest`
    unfoldable pub evict_one : Map K V → Map K V
    evict_one [] = []
    evict_one (first ∷ m) = remove (first ∷ m) (oldest_of first m).0

    -- The loop, on fuel
    unfoldable pub evict_loop : ℕ → ℕ → Map K V → Map K V
    evict_loop zero limit m = m
    evict_loop (suc fuel) limit m =
        let rest = evict_loop fuel limit (evict_one m) in if ltb limit (length m) then rest else m

    -- Each round removes an entry, so that there are at most as many rounds as entries.
    unfoldable pub evict_oldest : Map K V → ℕ → Map K V
    evict_oldest m limit = evict_loop (length m) limit m

abbrev pub max_persisted_revocations : ℕ
max_persisted_revocations = 4096

abbrev pub max_persisted_bind_certificates : ℕ
max_persisted_bind_certificates = 4096

unfoldable pub enforce_limits : TrustDisk → TrustDisk
enforce_limits disk = record disk {
  revocations =
      evict_oldest (λ (stored : StoredRevocation). time_or_zero (parse_time stored.relevant_until))
        disk.revocations max_persisted_revocations;
  bind_certificates =
      evict_oldest
        (λ (stored : StoredBindCertificate).
          time_or_zero (parse_time stored.certificate.expires_at))
        disk.bind_certificates max_persisted_bind_certificates;
}

-- Do these revocations name the guest's token?
unfoldable pub names_guest : Map Bytes StoredRevocation → ℕ → Bytes → Bool
names_guest revocations peer token =
    any
      (λ (stored : StoredRevocation).
        stored.revocation.guest_peer_id == peer && stored.revocation.token_id == token)
      (values revocations)

unfoldable pub peer_stands : TrustDisk → ℕ → TrustedPeer → Bool
peer_stands disk peer_id peer = is_none_or peer.token_id (λ token.
    not (contains_key disk.revoked token) && not (names_guest disk.revocations peer_id token))

unfoldable pub names_certificate : Map Bytes StoredRevocation → ℕ → StoredBindCertificate → Bool
names_certificate revocations guest stored =
    any
      (λ (r : StoredRevocation).
        r.revocation.issuer == stored.issuer
        && (r.revocation.guest_peer_id == guest
            && r.revocation.token_id == stored.certificate.token_id))
      (values revocations)

unfoldable pub certificate_stands : TrustDisk → ℕ → StoredBindCertificate → Bool
certificate_stands disk guest stored =
    not (contains_key disk.revoked stored.certificate.token_id)
    && not (names_certificate disk.revocations guest stored)

unfoldable pub remove_revoked_guests : TrustDisk → TrustDisk
remove_revoked_guests disk = record disk {
  peers = retain_entries (peer_stands disk) disk.peers;
  bind_certificates = retain_entries (certificate_stands disk) disk.bind_certificates;
}

-- What `save` writes: `now` is the clock of `abra_core::now_ms`
unfoldable pub saved : ℕ → TrustDisk → TrustDisk → TrustDisk
saved now mine theirs =
    remove_revoked_guests (enforce_limits (prune_expired now (merge_disk_state mine theirs)))

-- `save`; the handle keeps its own state
unfoldable pub save : ℕ → TrustStore → TrustStore
save now s = record s { file = some (saved now s.disk (read_disk s.file)) }
