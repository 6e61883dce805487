-- ===== src/Net/Auth/History/Removed.antt =====
-- A removed peer stays removed under the saves of older handles (crates/abra-net/src/auth.rs).
use abra.Prelude.{
  ℕ, ◌+◌, ◌^◌, ◌%◌, ◌≤◌, ◌<◌, ◌≡◌, refl, ◌∙◌, true, none, List, [], ◌∷◌, all, leb, ltb, nat_eq,
  bytes_eq, ok, arith, Option-cases, inl, inr,
}
use abra.Prelude.Map.{get}
use abra.Net.Sorted.{get-insert, get-remove, get-retain_none, nat_ord}
use abra.Net.Auth.Trust.{
  TrustedPeer, TrustDisk, TrustStore, read_disk, reload, version_of, merge_disk_state,
}
use abra.Net.Auth.Trust.Merge.{later, merge_disk_state-winner}
use abra.Net.Auth.Save.{saved, save, prune_expired, enforce_limits, remove_revoked_guests}
use abra.Net.Auth.Pairs.{removed_peer, advance_peer_version, remove_found, remove_peer}

-- The peer is absent, under a version of at least `v`.
pub record IsGone (peer v : ℕ) (d : TrustDisk) : Type 0 where
  pub absent : get d.peers peer ≡ none
  pub version : v ≤ version_of d peer

saved_absent :
    (now : ℕ) (mine theirs : TrustDisk) (peer : ℕ)
    → get (merge_disk_state mine theirs).peers peer ≡ none
    → get (saved now mine theirs).peers peer ≡ none
unfolding saved remove_revoked_guests enforce_limits prune_expired
saved_absent now mine theirs peer h = get-retain_none _ (merge_disk_state mine theirs).peers peer h

version_of-saved :
    (now : ℕ) (mine theirs : TrustDisk) (peer : ℕ)
    → version_of (saved now mine theirs) peer
      ≡ later (version_of mine peer) (version_of theirs peer)
unfolding saved remove_revoked_guests enforce_limits prune_expired version_of
version_of-saved now mine theirs peer =
    unfold version_of in ((merge_disk_state-winner mine theirs peer).1)

saved-IsGone :
    (now : ℕ) (mine theirs : TrustDisk) (peer v : ℕ)
    → version_of mine peer < v
    → IsGone peer v theirs
    → IsGone peer v (saved now mine theirs)
saved-IsGone now mine theirs peer v older h = record {
  absent =
      saved_absent now mine theirs peer
        (ground (arith, (merge_disk_state-winner mine theirs peer).0, h.absent, h.version));
  version = ground (arith, version_of-saved now mine theirs peer, h.version);
}

-- The saves of handles with these states, in their order.
unfoldable pub saves : List (ℕ × TrustDisk) → TrustDisk → TrustDisk
saves [] file = file
saves ((now, mine) ∷ list) file = saves list (saved now mine file)

saves-IsGone :
    (list : List (ℕ × TrustDisk)) (file : TrustDisk) (peer v : ℕ)
    → all (λ (x : ℕ × TrustDisk). ltb (version_of x.1 peer) v) list ≡ true
    → IsGone peer v file
    → IsGone peer v (saves list file)
unfolding saves
saves-IsGone [] file peer v older h = h
saves-IsGone ((now, mine) ∷ list) file peer v older h =
    saves-IsGone list (saved now mine file) peer v (ground arith)
      (saved-IsGone now mine file peer v (ground arith) h)

version_of-removed_peer :
    (peer : ℕ) (t : TrustedPeer) (d : TrustDisk)
    → version_of (removed_peer peer t d) peer ≡ (version_of d peer + 1) % 2 ^ 64
unfolding removed_peer advance_peer_version version_of
version_of-removed_peer peer t d = ground (
  arith,
  get-insert d.peer_versions peer peer ((version_of d peer + 1) % 2 ^ 64),
  nat_eq.same_iff peer peer,
)

removed_peer_absent :
    (peer : ℕ) (t : TrustedPeer) (d : TrustDisk) → get (removed_peer peer t d).peers peer ≡ none
unfolding removed_peer advance_peer_version
removed_peer_absent peer t d =
    ground (arith, get-remove d.peers peer peer, nat_eq.same_iff peer peer)

saved-removed_peer :
    (now peer : ℕ) (t : TrustedPeer) (d : TrustDisk)
    → version_of d peer + 1 < 2 ^ 64
    → IsGone peer (version_of d peer + 1) (saved now (removed_peer peer t d) d)
saved-removed_peer now peer t d small =
    let mine = removed_peer peer t d in
    let next : version_of mine peer ≡ version_of d peer + 1 =
      version_of-removed_peer peer t d ∙ omega (arith, small) in
    record {
      absent = saved_absent now mine d peer (
          ground
            (arith, next, (merge_disk_state-winner mine d peer).0, removed_peer_absent peer t d));
      version = ground (arith, next, version_of-saved now mine d peer);
    }

-- After a call of remove_peer that finds the peer, no sequence of saves by handles whose state is of
-- before the removal brings the peer back into the file, given that the peer's version has a next
-- one.
pub remove_peer-stays :
    (peer clock : ℕ) (s : TrustStore) (list : List (ℕ × TrustDisk))
    → version_of (read_disk s.file) peer + 1 < 2 ^ 64
    → (remove_peer peer clock s).0 ≡ ok true
    → all
        (λ (x : ℕ × TrustDisk). leb (version_of x.1 peer) (version_of (read_disk s.file) peer))
        list
      ≡ true
    → get (saves list (read_disk (remove_peer peer clock s).1.file)).peers peer ≡ none
unfolding remove_peer remove_found reload save read_disk
remove_peer-stays peer clock s list small done older =
    let d = read_disk s.file in
    elim (Option-cases (get d.peers peer)) [
      | inl missing ↦ absurd (ground (arith, missing))
      | inr (t, there) ↦
          rw there
            (saves-IsGone list (saved clock (removed_peer peer t d) d) peer (version_of d peer + 1)
              (not_newer list older) (saved-removed_peer clock peer t d small)).absent
    ]
  where
    not_newer :
        (l : List (ℕ × TrustDisk))
        → all
            (λ (x : ℕ × TrustDisk). leb (version_of x.1 peer) (version_of (read_disk s.file) peer))
            l
          ≡ true
        → all
            (λ (x : ℕ × TrustDisk).
              ltb (version_of x.1 peer) (version_of (read_disk s.file) peer + 1))
            l
          ≡ true
    not_newer [] h = refl
    not_newer (x ∷ l) h = ground (arith, not_newer l)
