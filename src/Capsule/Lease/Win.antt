-- ===== src/Capsule/Lease/Win.antt =====
-- What a winning lease changes, and who has signed for it.
use abra.Crates.{Crates}
use abra.Prelude.{
  ℕ, ◌+◌, ◌^◌, ◌<◌, ◌≡◌, ap, ◌∙◌, ◌⊎◌, inl, inr, Bool, true, false, some, arith, Bool-cases, ok,
}
use abra.Capsule.LeaseRecord
use abra.Capsule.LeaseRecord.{LeaseRecord, LeaseMode, is_mode}
use abra.Capsule.State.{Capsule, winning_lease}
use abra.Capsule.Lease.{
  check_mode, Predecessor, is_race, predecessor, after_winner, continues, add_winner, settle,
  settle_race, accept_lease, check_schema, signer_of,
}
use abra.Capsule.Lease.Accepted.{Passed, Outcome, accepted}
use abra.Capsule.Lease.Settle.{Races, Races-of, settle-race, winning-add_winner}

-- A lease that wins is settled.
pub settled_of :
    (s : Capsule) (r : LeaseRecord) (p : Predecessor) (s' : Capsule)
    → ⦃c : Crates⦄ → Outcome s r p true s'
    → (continues p r ≡ true) × (settle s r ≡ ok (true, s'))
settled_of s r p s' (inl (_, e, _)) = cc
settled_of s r p s' (inr (e, _, h)) = (e, h)

pub checked_of :
    (s : Capsule) (r : LeaseRecord) (p : Predecessor) (s' : Capsule)
    → ⦃c : Crates⦄ → Outcome s r p true s'
    → check_mode s r p.holder ≡ ok tt
checked_of s r p s' (inl (_, e, _)) = cc
checked_of s r p s' (inr (_, e, _)) = e

pub settle-true :
    (s : Capsule) (r : LeaseRecord) (s' : Capsule)
    → settle s r ≡ ok (true, s')
    → s' ≡ add_winner s r
unfolding settle settle_race
settle-true s r s' h = ground arith

not_race :
    (s : Capsule) (r w : LeaseRecord)
    → winning_lease s ≡ some w
    → w.epoch < r.epoch
    → is_race s r ≡ false
unfolding is_race
not_race s r w e h = ground arith

-- The order by epoch, then by signature.
abbrev pub Supersedes : LeaseRecord → LeaseRecord → Type 0
Supersedes r w = (r.epoch ≡ w.epoch + 1) ⊎ (Races r w × (w.sig < r.sig))

module _ ⦃c : Crates⦄ where
  pub schema_epoch : (s : Capsule) (r : LeaseRecord) → check_schema s r ≡ ok tt → 0 < r.epoch
  unfolding check_schema
  schema_epoch s r h = ground arith

  pub predecessor-next :
      (s : Capsule) (r w : LeaseRecord) (p : Predecessor)
      → winning_lease s ≡ some w
      → is_race s r ≡ false
      → predecessor s r ≡ ok p
      → (p.epoch ≡ w.epoch) × (p.holder ≡ w.holder) × (LeaseRecord.hash w ≡ ok p.prev)
  unfolding predecessor after_winner
  predecessor-next s r w p e race h = ground arith

  -- A lease that wins replaces the winner and is added to the leases; nothing else changes.
  pub accept_lease-true :
      (s : Capsule) (r : LeaseRecord) (authorize : ℕ → LeaseMode → Bool) (s' : Capsule)
      → accept_lease s r authorize ≡ ok (true, s')
      → (winning_lease s' ≡ some r) × (s' ≡ add_winner s r)
  accept_lease-true s r authorize s' h =
      let (p, passed, o) = accepted s r authorize true s' h in
      let (_, e) = settled_of s r p s' o in
      let e' = settle-true s r s' e in (ap winning_lease e' ∙ winning-add_winner s r, e')

  -- A new winner has the next epoch, or the same epoch and predecessor and a greater signature.
  pub accept_lease-Supersedes :
      (s : Capsule) (r w : LeaseRecord) (authorize : ℕ → LeaseMode → Bool) (s' : Capsule)
      → winning_lease s ≡ some w
      → w.epoch < 2 ^ 64
      → accept_lease s r authorize ≡ ok (true, s')
      → Supersedes r w
  unfolding continues
  accept_lease-Supersedes s r w authorize s' e fits h =
      let (p, passed, o) = accepted s r authorize true s' h in
      let (k, e') = settled_of s r p s' o in
      elim (Bool-cases (is_race s r)) [
        | inl race ↦ ground (arith, settle-race s r w true s' e race, Races-of s r w e race)
        | inr next ↦
            let (pe, _, _) = predecessor-next s r w p e next passed.pred in
            inl (ground (arith, schema_epoch s r passed.schema))
      ]

  -- In the next epoch the lease stays with its holder or goes to one that is authorized, and it is
  -- signed by the old holder, or in a takeover by the new one.
  abbrev pub HandedOver : LeaseRecord → LeaseRecord → (ℕ → LeaseMode → Bool) → Type 0
  HandedOver w r authorize =
      ((r.holder ≡ w.holder) ⊎ (authorize r.holder r.mode ≡ true))
      × ((LeaseRecord.verify_with r w.holder ≡ ok tt)
          ⊎ ((is_mode r.mode LeaseMode.takeover ≡ true)
              × (LeaseRecord.verify_with r r.holder ≡ ok tt)
              × (authorize r.holder r.mode ≡ true)))

  mode-HandedOver :
      (s : Capsule) (r w : LeaseRecord) (p : Predecessor) (authorize : ℕ → LeaseMode → Bool)
      → 1 < r.epoch
      → p.holder ≡ w.holder
      → Passed s r authorize p
      → check_mode s r p.holder ≡ ok tt
      → HandedOver w r authorize
  unfolding check_mode signer_of
  mode-HandedOver s r w p authorize e hp passed checked =
      ground (arith, passed.signed, passed.allowed)

  -- A lease that wins in the next epoch keeps the holder or names an authorized one, and is signed
  -- by the old holder, or else is a takeover that its new holder has signed and is authorized for.
  pub accept_lease-HandedOver :
      (s : Capsule) (r w : LeaseRecord) (authorize : ℕ → LeaseMode → Bool) (s' : Capsule)
      → winning_lease s ≡ some w
      → 0 < w.epoch
      → w.epoch < r.epoch
      → accept_lease s r authorize ≡ ok (true, s')
      → HandedOver w r authorize
  accept_lease-HandedOver s r w authorize s' e pos later h =
      let (p, passed, o) = accepted s r authorize true s' h in
      let next = not_race s r w e later in
      let (_, hp, _) = predecessor-next s r w p e next passed.pred in
      mode-HandedOver s r w p authorize (omega arith) hp passed (checked_of s r p s' o)
