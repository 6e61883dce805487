-- ===== src/Capsule/Lease/Accepted.antt =====
-- What an accepted lease has passed: the inversion of `accept_lease`.
use abra.Crates.{Crates}
use abra.Prelude.{ℕ, ◌≡◌, Bool, true, false, not, ◌&&◌, ◌||◌, ◌⊎◌, arith, ok, >>=-eq-ok}
use abra.Capsule.LeaseRecord
use abra.Capsule.LeaseRecord.{LeaseRecord, LeaseMode, is_mode}
use abra.Capsule.State.{Capsule}
use abra.Capsule.Lease.{
  Predecessor, check_schema, check_ttl, predecessor, signer_of, continues, push_evidence,
  check_mode, settle, finish, accept_lease,
}

module _ ⦃c : Crates⦄ where
  -- A transfer or a takeover to a holder that is not authorized.
  abbrev pub refused : (ℕ → LeaseMode → Bool) → LeaseRecord → Bool
  refused authorize r =
      (is_mode r.mode LeaseMode.takeover || is_mode r.mode LeaseMode.transfer)
      && not (authorize r.holder r.mode)

  -- The tests that every record passes which changes the capsule.
  pub record Passed (s : Capsule) (r : LeaseRecord) (authorize : ℕ → LeaseMode → Bool)
      (p : Predecessor) : Type 0 where
    pub schema : check_schema s r ≡ ok tt
    pub ttl : check_ttl r ≡ ok tt
    pub pred : predecessor s r ≡ ok p
    pub signed : LeaseRecord.verify_with r (signer_of r p) ≡ ok tt
    pub allowed : refused authorize r ≡ false

  -- The record was kept as evidence, or it continues its predecessor and was settled.
  abbrev pub Outcome : Capsule → LeaseRecord → Predecessor → Bool → Capsule → Type 0
  Outcome s r p b s' =
      ((continues p r ≡ false)
        × (b ≡ false)
        × (s' ≡ record s { evidence = push_evidence s.evidence r }))
      ⊎ ((continues p r ≡ true) × (check_mode s r p.holder ≡ ok tt) × (settle s r ≡ ok (b, s')))

  finish-Outcome :
      (s : Capsule) (r : LeaseRecord) (authorize : ℕ → LeaseMode → Bool) (p : Predecessor)
      (b : Bool) (s' : Capsule)
      → finish s r authorize p ≡ ok (b, s')
      → (refused authorize r ≡ false) × Outcome s r p b s'
  unfolding finish
  finish-Outcome s r authorize p b s' h = ground arith

  pub accepted :
      (s : Capsule) (r : LeaseRecord) (authorize : ℕ → LeaseMode → Bool) (b : Bool) (s' : Capsule)
      → accept_lease s r authorize ≡ ok (b, s')
      → (p : Predecessor) × Passed s r authorize p × Outcome s r p b s'
  unfolding accept_lease
  accepted s r authorize b s' h =
      let (u1, e1, h1) = >>=-eq-ok (check_schema s r) _ h in
      let (u2, e2, h2) = >>=-eq-ok (check_ttl r) _ h1 in
      let (p, e3, h3) = >>=-eq-ok (predecessor s r) _ h2 in
      let (u4, e4, h4) = >>=-eq-ok (LeaseRecord.verify_with r (signer_of r p)) _ h3 in
      let (e5, o) = finish-Outcome s r authorize p b s' h4 in
      (p, record { schema = e1; ttl = e2; pred = e3; signed = e4; allowed = e5 }, o)
