-- ===== src/Net/Auth/Hello/Trusted.antt =====
-- Who gets through the handshake (crates/abra-net/src/auth.rs).
use abra.Crates.{Crates}
use abra.Prelude.{
  ℕ, ◌≤◌, ◌≡◌, ◌⊎◌, inl, inr, refl, ◌∙◌, Bool, true, false, not, ◌&&◌, ◌||◌, length, ◌==◌, nat_eq,
  bytes_eq, ltb, is_ok, is_some, Result, ok, err, >>-parts, refuse_if, arith, Bool-cases,
}
use abra.Prelude.Map.{get}
use abra.Capsule.Signed.{spec}
use abra.Net.Auth.Trust.{TrustDisk, TrustStore}
use abra.Net.Auth.Revocations.{max_revocations_per_message, is_revoked_guest, apply_revocations}
use abra.Net.Auth.Hello.{
  Hello, HelloOk, Handshake, wire_version, has_mandatory, session_of, check_hello, first_check,
  check_again, after_apply, answer_hello, accept_handshake,
}

-- What a hello needs to be answered.
pub record IsGreeting (hello : Hello) (remote : ℕ) : Type 0 where
  pub peer : hello.peer_id ≡ remote
  pub wire : hello.wire ≡ wire_version
  pub spec_lem : hello.spec ≡ spec
  pub features : has_mandatory hello.features ≡ true
  pub revocations : length hello.revocations ≤ max_revocations_per_message

-- A session is trusted only with a known peer that is no revoked guest.
abbrev pub MayEnter : ℕ → ℕ → TrustDisk → HelloOk → Type 0
MayEnter remote now d r =
    (is_revoked_guest d remote now ≡ false)
    × ((r.session ≡ session_of true) × (is_some (get d.peers remote) ≡ true)
        ⊎ (r.session ≡ session_of false))

check_hello-IsGreeting :
    (hello : Hello) (remote : ℕ) (trusted : Bool) (r : HelloOk)
    → check_hello hello remote trusted ≡ ok r
    → IsGreeting hello remote × (r.session ≡ session_of trusted)
unfolding check_hello
check_hello-IsGreeting hello remote trusted r h =
    let (h0, h1) = >>-parts (refuse_if (not (hello.peer_id == remote)) _) _ h in
    let (h2, h3) =
      >>-parts (refuse_if (not (hello.wire == wire_version) || not (hello.spec == spec)) _) _ h1 in
    let (h4, h5) = >>-parts (refuse_if (not (has_mandatory hello.features)) _) _ h3 in
    let (h6, h7) =
      >>-parts (refuse_if (ltb max_revocations_per_message (length hello.revocations)) _) _ h5 in
    (
      record {
        peer = ground (arith, h0);
        wire = ground (arith, h2);
        spec_lem = ground (arith, h2, bytes_eq.same_iff hello.spec spec);
        features = ground (arith, h4);
        revocations = ground (arith, h6);
      },
      ground (arith, h7),
    )

answer_hello-result :
    (hello : Hello) (local now : ℕ) (s : TrustStore) (checked : Result HelloOk) (r : HelloOk)
    → (answer_hello hello local now s checked).result ≡ ok r
    → (q : HelloOk) × (checked ≡ ok q)
      × (r.session ≡ q.session)
      × ((answer_hello hello local now s checked).trust ≡ s)
unfolding answer_hello
answer_hello-result hello local now s (err e) r h = cc
answer_hello-result hello local now s (ok q) r h = (q, refl, ground (arith, h), refl)

first_check-parts :
    (hello : Hello) (remote now : ℕ) (d : TrustDisk) (q : HelloOk)
    → first_check hello remote now d ≡ ok q
    → (is_revoked_guest d remote now ≡ false)
      × (IsGreeting hello remote × (q.session ≡ session_of (is_some (get d.peers remote))))
unfolding first_check
first_check-parts hello remote now d q h = elim (Bool-cases (is_revoked_guest d remote now)) [
  | inl e ↦ absurd (ground arith)
  | inr e ↦ (e, check_hello-IsGreeting hello remote (is_some (get d.peers remote)) q (ground arith))
]

check_again-parts :
    (remote now : ℕ) (d : TrustDisk) (checked : Result HelloOk) (q : HelloOk)
    → check_again remote now d checked ≡ ok q
    → (is_revoked_guest d remote now ≡ false)
      × ((is_some (get d.peers remote) ≡ true) × (checked ≡ ok q))
unfolding check_again
check_again-parts remote now d checked q h = ground arith

abbrev Entered : Hello → ℕ → ℕ → Handshake → Type 0
Entered hello remote now done =
    (r : HelloOk)
    → done.result ≡ ok r
    → IsGreeting hello remote × MayEnter remote now done.trust.disk r

module _ (hello : Hello) (local remote now : ℕ) where
  answer_hello-Entered :
      (s : TrustStore)
      → (is_ok (first_check hello remote now s.disk) && is_some (get s.disk.peers remote)) ≡ false
      → Entered hello remote now
          (answer_hello hello local now s (first_check hello remote now s.disk))
  answer_hello-Entered s unknown r done =
      let (q, checked, session, same) =
        answer_hello-result hello local now s (first_check hello remote now s.disk) r done in
      let (unrevoked, (greeting, was)) = first_check-parts hello remote now s.disk q checked in
      (greeting, rw same (ground (arith, was, session, checked)))

  after_apply-Entered :
      (d : TrustDisk) (applied : Result (Unit {0}) × TrustStore)
      → Entered hello remote now
          (after_apply hello local remote now (first_check hello remote now d) applied)
  unfolding after_apply
  after_apply-Entered d (err e, s) r done = absurd (ground (arith, done))
  after_apply-Entered d (ok u, s) r done =
      let (q, checked, session, same) =
        answer_hello-result hello local now s
          (check_again remote now s.disk (first_check hello remote now d)) r done in
      let (unrevoked, (known, first)) =
        check_again-parts remote now s.disk (first_check hello remote now d) q checked in
      let (before, (greeting, was)) = first_check-parts hello remote now d q first in
      (greeting, entered (is_some (get d.peers remote)) (session ∙ was) unrevoked known same)
    where
      entered :
          (known_before : Bool)
          → r.session ≡ session_of known_before
          → is_revoked_guest s.disk remote now ≡ false
          → is_some (get s.disk.peers remote) ≡ true
          → (answer_hello hello local now s
              (check_again remote now s.disk (first_check hello remote now d))).trust
            ≡ s
          → MayEnter remote now
              (answer_hello hello local now s
                (check_again remote now s.disk (first_check hello remote now d))).trust.disk
              r
      entered true was unrevoked known same = rw same (unrevoked, inl (was, known))
      entered false was unrevoked known same = rw same (unrevoked, inr was)

answer_hello-trust :
    (hello : Hello) (local now : ℕ) (s : TrustStore) (checked : Result HelloOk)
    → (answer_hello hello local now s checked).trust ≡ s
unfolding answer_hello
answer_hello-trust hello local now s (err e) = refl
answer_hello-trust hello local now s (ok q) = refl

after_apply-trust :
    (hello : Hello) (local remote now : ℕ) (checked : Result HelloOk)
    (applied : Result (Unit {0}) × TrustStore)
    → (after_apply hello local remote now checked applied).trust ≡ applied.1
unfolding after_apply
after_apply-trust hello local remote now checked (err e, s) = refl
after_apply-trust hello local remote now checked (ok u, s) =
    answer_hello-trust hello local now s (check_again remote now s.disk checked)

module _ ⦃c : Crates⦄ where
  -- What a handshake leaves: the revocations of the hello are applied if the peer was known before, and
  -- a stranger's change nothing.
  abbrev pub Heard : Hello → ℕ → ℕ → ℕ → TrustStore → TrustStore → Type 0
  Heard hello remote now clock s s' =
      ((is_some (get s.disk.peers remote) ≡ true)
        × (s' ≡ (apply_revocations hello.revocations now clock s).1))
      ⊎ ((is_some (get s.disk.peers remote) ≡ false) × (s' ≡ s))

  accept_handshake-Heard :
      (hello : Hello) (local remote now clock : ℕ) (s : TrustStore) (r : HelloOk)
      → (accept_handshake hello local remote now clock s).result ≡ ok r
      → Heard hello remote now clock s (accept_handshake hello local remote now clock s).trust
  unfolding accept_handshake
  accept_handshake-Heard hello local remote now clock s r done =
      let first = first_check hello remote now s.disk in
      let applied = apply_revocations hello.revocations now clock s in
      elim (Bool-cases (is_some (get s.disk.peers remote))) [
        | inr stranger ↦
            inr (stranger, ground (arith, stranger, answer_hello-trust hello local now s first))
        | inl known ↦ elim (Bool-cases (is_ok first)) [
          | inl passed ↦ inl (
            known,
            ground (arith, known, passed, after_apply-trust hello local remote now first applied),
          )
          | inr failed ↦
              let here : (answer_hello hello local now s first).result ≡ ok r =
                ground (arith, failed, done) in
              let (q, checked, session, same) =
                answer_hello-result hello local now s first r here in
              absurd (ground (arith, failed, checked))
        ]
      ]

  accept_handshake-entered :
      (hello : Hello) (local remote now clock : ℕ) (s : TrustStore) (r : HelloOk)
      → (accept_handshake hello local remote now clock s).result ≡ ok r
      → IsGreeting hello remote
        × MayEnter remote now (accept_handshake hello local remote now clock s).trust.disk r
  unfolding accept_handshake
  accept_handshake-entered hello local remote now clock s r done =
      elim (Bool-cases
        (is_ok (first_check hello remote now s.disk) && is_some (get s.disk.peers remote))) [
          | inl e ↦
              let h =
                after_apply-Entered hello local remote now s.disk
                  (apply_revocations hello.revocations now clock s) r (ground (arith, done)) in
              rw e h
          | inr e ↦
              let h = answer_hello-Entered hello local remote now s e r (ground (arith, done)) in
              rw e h
        ]

  -- A handshake that succeeds had a hello by the transport's peer, for this wire and spec, with the
  -- mandatory features and at most 128 revocations. If the peer was known before, the trust at the end
  -- is the one with the hello's revocations applied, and otherwise it is unchanged; in it the peer is
  -- no revoked guest, and the session is trusted only if the peer still is.
  pub accept_handshake-MayEnter :
      (hello : Hello) (local remote now clock : ℕ) (s : TrustStore) (r : HelloOk)
      → (accept_handshake hello local remote now clock s).result ≡ ok r
      → (IsGreeting hello remote
          × MayEnter remote now (accept_handshake hello local remote now clock s).trust.disk r)
        × Heard hello remote now clock s (accept_handshake hello local remote now clock s).trust
  accept_handshake-MayEnter hello local remote now clock s r done = (
    accept_handshake-entered hello local remote now clock s r done,
    accept_handshake-Heard hello local remote now clock s r done,
  )
