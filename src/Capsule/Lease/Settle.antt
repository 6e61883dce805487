-- ===== src/Capsule/Lease/Settle.antt =====
-- Which lease wins: the order of leases by epoch, and by signature in a race.
use abra.Prelude.{
  ℕ, ◌≤◌, ◌<◌, ◌≡◌, ap, ◌∙◌, ◌⊎◌, Bool, true, false, Option, none, some, List, [], ◌∷◌, ◌++◌,
  get_elem?, get_elem?-append, get_elem?-append_last, length-append, arith, ok,
}
use abra.Capsule.LeaseRecord.{LeaseRecord}
use abra.Capsule.State.{Capsule, winning_lease, lease_at}
use abra.Capsule.Lease.{is_race, add_lease, add_winner, settle, settle_race}

-- `r` has the epoch and the predecessor of the winner `w`.
pub record Races (r w : LeaseRecord) : Type 0 where
  pub epoch : r.epoch ≡ w.epoch
  pub prev : r.prev_hash ≡ w.prev_hash

pub is_race-none : (s : Capsule) (r : LeaseRecord) → winning_lease s ≡ none → is_race s r ≡ false
unfolding is_race
is_race-none s r e = rw e

pub Races-of :
    (s : Capsule) (r w : LeaseRecord) → winning_lease s ≡ some w → is_race s r ≡ true → Races r w
unfolding is_race
Races-of s r w e h = ground arith

pub is_race_of :
    (s : Capsule) (r w : LeaseRecord) → winning_lease s ≡ some w → Races r w → is_race s r ≡ true
unfolding is_race
is_race_of s r w e h = ground arith

pub winning-add_winner : (s : Capsule) (r : LeaseRecord) → winning_lease (add_winner s r) ≡ some r
unfolding winning_lease add_winner
winning-add_winner s r =
    ap (get_elem? (s.leases ++ r ∷ [])) (omega (arith, length-append s.leases (r ∷ [])))
    ∙ get_elem?-append_last s.leases r

lease_at-append :
    (ls : List LeaseRecord) (r w : LeaseRecord) (o : Option ℕ)
    → lease_at ls o ≡ some w
    → lease_at (ls ++ r ∷ []) o ≡ some w
lease_at-append ls r w none h = h
lease_at-append ls r w (some i) h = get_elem?-append ls (r ∷ []) i w h

pub winning-add_lease :
    (s : Capsule) (r w : LeaseRecord)
    → winning_lease s ≡ some w
    → winning_lease (add_lease s r) ≡ some w
unfolding winning_lease add_lease
winning-add_lease s r w h = lease_at-append s.leases r w s.winner h

pub settle-race :
    (s : Capsule) (r w : LeaseRecord) (b : Bool) (s' : Capsule)
    → winning_lease s ≡ some w
    → is_race s r ≡ true
    → settle s r ≡ ok (b, s')
    → ((b ≡ true) × (s' ≡ add_winner s r) × (w.sig < r.sig))
      ⊎ ((b ≡ false) × (s' ≡ add_lease s r) × (r.sig ≤ w.sig))
unfolding settle settle_race
settle-race s r w b s' e race h = ground arith

pub settle-next :
    (s : Capsule) (r : LeaseRecord) (b : Bool) (s' : Capsule)
    → is_race s r ≡ false
    → settle s r ≡ ok (b, s')
    → (b ≡ true) × (s' ≡ add_winner s r)
unfolding settle
settle-next s r b s' race h = ground arith
