-- ===== src/Capsule/Lease/Invariant.antt =====
-- The invariant of the leases of a capsule, over any sequence of records.
use abra.Crates.{Crates}
use abra.Prelude.{
  ℕ, ◌^◌, ◌≤◌, ◌<◌, ◌≡◌, refl, ◌⊎◌, inl, inr, Bool, true, false, some, List, [], ◌∷◌, length,
  length-append, drop, arith, ok,
}
use abra.Capsule.LeaseRecord.{LeaseRecord, LeaseMode}
use abra.Capsule.State.{Capsule, winning_lease}
use abra.Capsule.Lease.{
  Predecessor, push_evidence, add_lease, add_winner, settle, settle_race, accept_lease,
}
use abra.Capsule.Lease.Accepted.{Outcome, accepted}
use abra.Capsule.Lease.Settle.{winning-add_lease}
use abra.Capsule.Lease.Win.{Supersedes, schema_epoch, accept_lease-true, accept_lease-Supersedes}

-- A winner is there, with an epoch of its range, and the evidence is bounded.
pub record IsSound (s : Capsule) (w : LeaseRecord) : Type 0 where
  pub winner : winning_lease s ≡ some w
  pub epoch_pos : 0 < w.epoch
  pub epoch_fits : w.epoch < 2 ^ 64
  pub evidence : length s.evidence ≤ 64

length-drop_one : (xs : List LeaseRecord) → length xs ≡ 64 → length (drop 1 xs) ≡ 63
length-drop_one [] h = omega arith
length-drop_one (x ∷ xs) h = omega arith

push_evidence-bound :
    (ev : List LeaseRecord) (r : LeaseRecord) → length ev ≤ 64 → length (push_evidence ev r) ≤ 64
unfolding push_evidence
push_evidence-bound ev r h =
    ground
      (arith, length-drop_one ev, length-append ev (r ∷ []), length-append (drop 1 ev) (r ∷ []))

-- The winner is the old one, or one that supersedes it.
abbrev pub Follows : LeaseRecord → LeaseRecord → Type 0
Follows w' w = (w' ≡ w) ⊎ Supersedes w' w

module _ ⦃c : Crates⦄ where
  -- What a call that returns leaves behind.
  pub record Stays (s : Capsule) (w : LeaseRecord) (s' : Capsule) : Type 0 where
    pub next : LeaseRecord
    pub sound : IsSound s' next
    pub follows : Follows next w

  Stays-lost :
      (s : Capsule) (w : LeaseRecord) (s' : Capsule)
      → IsSound s w
      → winning_lease s' ≡ some w
      → length s'.evidence ≤ 64
      → Stays s w s'
  Stays-lost s w s' v e h = record {
    next = w;
    sound = record { winner = e; epoch_pos = v.epoch_pos; epoch_fits = v.epoch_fits; evidence = h };
    follows = inl refl;
  }

  settle-false :
      (s : Capsule) (r : LeaseRecord) (s' : Capsule)
      → settle s r ≡ ok (false, s')
      → s' ≡ add_lease s r
  unfolding settle settle_race
  settle-false s r s' h = ground arith

  lost :
      (s : Capsule) (r w : LeaseRecord) (p : Predecessor) (s' : Capsule)
      → IsSound s w
      → Outcome s r p false s'
      → Stays s w s'
  unfolding winning_lease
  lost s r w p s' v (inl (_, _, e)) =
      Stays-lost s w s' v (ground (arith, v.winner))
        (ground (arith, push_evidence-bound s.evidence r v.evidence))
  lost s r w p s' v (inr (_, _, h)) =
      let e = settle-false s r s' h in
      Stays-lost s w s' v (ground (arith, winning-add_lease s r w v.winner))
        (rw e (unfold add_lease in v.evidence))

  -- Whatever record a sound capsule accepts, it stays sound, and its winner stays or is superseded.
  pub accept_lease-IsSound :
      (s : Capsule) (r w : LeaseRecord) (authorize : ℕ → LeaseMode → Bool) (b : Bool) (s' : Capsule)
      → IsSound s w
      → r.epoch < 2 ^ 64
      → accept_lease s r authorize ≡ ok (b, s')
      → Stays s w s'
  accept_lease-IsSound s r w authorize false s' v fits h =
      let (p, passed, o) = accepted s r authorize false s' h in lost s r w p s' v o
  accept_lease-IsSound s r w authorize true s' v fits h =
      let (p, passed, o) = accepted s r authorize true s' h in
      let (won, e) = accept_lease-true s r authorize s' h in
      record {
        next = r;
        sound = record {
          winner = won;
          epoch_pos = schema_epoch s r passed.schema;
          epoch_fits = fits;
          evidence = rw e (unfold add_winner in v.evidence);
        };
        follows = inr (accept_lease-Supersedes s r w authorize s' v.winner v.epoch_fits h);
      }
