-- ===== src/Capsule/Lease/Race.antt =====
-- Two leases that compete for one epoch: the winner does not depend on their order of arrival.
use abra.Crates.{Crates}
use abra.Prelude.{
  ℕ, zero, suc, ◌^◌, ◌≤◌, ◌<◌, ◌≡◌, ◌≢◌, refl, sym, ap, ◌∙◌, ◌⊎◌, inl, inr, Bool, true, false, some,
  List, [], ◌∷◌, ◌++◌, get_elem?, leb, Option-cases, Bool-cases, nat_eq, arith, Result, ok,
}
use abra.Capsule.LeaseRecord.{LeaseRecord, LeaseMode}
use abra.Capsule.State.{Capsule, winning_lease}
use abra.Capsule.LeaseRecord
use abra.Capsule.Lease.{
  is_race, has_hash, find_hash, predecessor, from_genesis, after_winner, Predecessor, continues,
  check_schema, check_mode, add_winner, add_lease, settle, settle_race, finish, accept_lease,
}
use abra.Capsule.Lease.Accepted.{Passed, accepted}
use abra.Capsule.Lease.Settle.{
  Races, is_race_of, settle-race, winning-add_winner, winning-add_lease,
}
use abra.Capsule.Lease.Win.{accept_lease-true, settled_of, checked_of}
use mathlib.Core.Path.{subst}

-- The winner's epoch is one that a lease can have.
abbrev pub EpochFits : Capsule → Type 0
EpochFits s = (w : LeaseRecord) → winning_lease s ≡ some w → (0 < w.epoch) × (w.epoch < 2 ^ 64)

-- The greater signature of two.
abbrev pub Greater : LeaseRecord → LeaseRecord → LeaseRecord → Type 0
Greater w a b = ((w ≡ a) × (b.sig ≤ a.sig)) ⊎ ((w ≡ b) × (a.sig < b.sig))

Greater-eq : (a b w1 w2 : LeaseRecord) → a.sig ≢ b.sig → Greater w1 a b → Greater w2 b a → w1 ≡ w2
Greater-eq a b w1 w2 differ g1 g2 = ground arith

settle_race-total :
    (s : Capsule) (r w : LeaseRecord)
    → winning_lease s ≡ some w
    → is_race s r ≡ true
    → (x : Bool) × (s' : Capsule) × (settle s r ≡ ok (x, s'))
unfolding settle settle_race
settle_race-total s r w e race = elim (Bool-cases (leb r.sig w.sig)) [
  | inl less ↦ (false, add_lease s r, ground (arith, e, race, less))
  | inr more ↦ (true, add_winner s r, ground (arith, e, race, more))
]

choose :
    (s : Capsule) (a b : LeaseRecord) (x : Bool) (s' : Capsule)
    → winning_lease s ≡ some a
    → ((x ≡ true) × (s' ≡ add_winner s b) × (a.sig < b.sig))
      ⊎ ((x ≡ false) × (s' ≡ add_lease s b) × (b.sig ≤ a.sig))
    → (w : LeaseRecord) × (winning_lease s' ≡ some w) × Greater w a b
choose s a b x s' e (inl (_, e', lt)) =
    (b, ap winning_lease e' ∙ winning-add_winner s b, inr (refl, lt))
choose s a b x s' e (inr (_, e', le)) =
    (a, ap winning_lease e' ∙ winning-add_lease s b a e, inl (refl, le))

module _ ⦃c : Crates⦄ where
  abbrev pub Only : LeaseRecord → List LeaseRecord → Type 0
  Only x [] = Unit {0}
  Only x (y ∷ ys) =
      ((h : ℕ) → LeaseRecord.hash x ≡ ok h → LeaseRecord.hash y ≡ ok h → y ≡ x) × Only x ys

  -- No two different leases of the list have one hash.
  abbrev pub NoCollision : List LeaseRecord → Type 0
  NoCollision [] = Unit {0}
  NoCollision (x ∷ xs) = Only x xs × NoCollision xs

  Only-at :
      (x w : LeaseRecord) (xs : List LeaseRecord) (i h : ℕ)
      → Only x xs
      → get_elem? xs i ≡ some w
      → LeaseRecord.hash x ≡ ok h
      → LeaseRecord.hash w ≡ ok h
      → w ≡ x
  Only-at x w [] i h o at hx hw = absurd (ground (arith, at))
  Only-at x w (y ∷ ys) zero h (first, o) at hx hw =
      let same : y ≡ w = ground (arith, at) in
      sym same ∙ first h hx (ap (λ (z : LeaseRecord). LeaseRecord.hash z) same ∙ hw)
  Only-at x w (y ∷ ys) (suc i) h (first, o) at hx hw = Only-at x w ys i h o at hx hw

  has_hash-eq : (r : Result ℕ) (h : ℕ) → has_hash h r ≡ true → r ≡ ok h
  has_hash-eq r h e = ground (arith, e)

  find_hash-at :
      (ls : List LeaseRecord) (w : LeaseRecord) (i h : ℕ)
      → NoCollision ls
      → get_elem? ls i ≡ some w
      → LeaseRecord.hash w ≡ ok h
      → find_hash ls h ≡ some w
  unfolding find_hash
  find_hash-at [] w i h n at hw = absurd (ground (arith, at))
  find_hash-at (x ∷ xs) w zero h n at hw =
      let same : x ≡ w = ground (arith, at) in
      let hx : LeaseRecord.hash x ≡ ok h = ap (λ (z : LeaseRecord). LeaseRecord.hash z) same ∙ hw in
      ground (arith, hx, same)
  find_hash-at (x ∷ xs) w (suc i) h (o, n) at hw =
      elim (Bool-cases (has_hash h (LeaseRecord.hash x))) [
        | inl here ↦
            let same = Only-at x w xs i h o at (has_hash-eq (LeaseRecord.hash x) h here) hw in
            ground (arith, here, same)
        | inr other ↦ ground (arith, other, find_hash-at xs w i h n at hw)
      ]

  find_hash-append :
      (ls : List LeaseRecord) (a w : LeaseRecord) (h : ℕ)
      → find_hash ls h ≡ some w
      → find_hash (ls ++ (a ∷ [])) h ≡ some w
  unfolding find_hash
  find_hash-append [] a w h found = absurd (ground (arith, found))
  find_hash-append (x ∷ ls) a w h found = ground (arith, found, find_hash-append ls a w h)

  find_hash-winner :
      (s : Capsule) (w : LeaseRecord) (h : ℕ)
      → NoCollision s.leases
      → winning_lease s ≡ some w
      → LeaseRecord.hash w ≡ ok h
      → find_hash s.leases h ≡ some w
  unfolding winning_lease
  find_hash-winner s w h n won hw = elim (Option-cases s.winner) [
    | inl unheld ↦ absurd (ground (arith, won, unheld))
    | inr (i, at) ↦ find_hash-at s.leases w i h n (ground (arith, won, at)) hw
  ]

  -- Once `a` has won, a racing lease `b` that would have won in its place has the same predecessor.
  predecessor-race :
      (s : Capsule) (a b : LeaseRecord) (p : Predecessor)
      → EpochFits s
      → NoCollision s.leases
      → is_race (add_winner s a) b ≡ true
      → predecessor s b ≡ ok p
      → continues p b ≡ true
      → predecessor (add_winner s a) b ≡ ok p
  unfolding predecessor continues after_winner from_genesis
  predecessor-race s a b p fits n race pred goes = elim (Bool-cases (is_race s b)) [
    | inl before ↦ elim (Option-cases (find_hash s.leases b.prev_hash)) [
      | inl absent ↦ unfold add_winner in (ground (arith, race, pred, before, absent))
      | inr (x, found) ↦
          let found' = find_hash-append s.leases a x b.prev_hash found in
          unfold add_winner in (ground (arith, race, pred, before, found, found'))
    ]
    | inr fresh ↦ elim (Option-cases (winning_lease s)) [
      | inl none_yet ↦ unfold add_winner in (ground (arith, race, pred, goes, fresh, none_yet))
      | inr (w, won) ↦
          let hashed : LeaseRecord.hash w ≡ ok b.prev_hash =
            ground (arith, pred, goes, fresh, won) in
          let found =
            find_hash-append s.leases a w b.prev_hash
              (find_hash-winner s w b.prev_hash n won hashed) in
          let (low, high) = fits w won in
          unfold add_winner in
          (ground (arith, race, pred, goes, fresh, won, hashed, found, low, high))
    ]
  ]

  -- A lease that passes all tests is settled.
  accept_lease-settle :
      (s : Capsule) (r : LeaseRecord) (authorize : ℕ → LeaseMode → Bool) (p : Predecessor)
      → Passed s r authorize p
      → continues p r ≡ true
      → check_mode s r p.holder ≡ ok tt
      → accept_lease s r authorize ≡ settle s r
  unfolding accept_lease finish
  accept_lease-settle s r authorize p passed goes mode =
      ground
        (arith, passed.schema, passed.ttl, passed.pred, passed.signed, passed.allowed, goes, mode)

  add_winner-checks :
      (s : Capsule) (a b : LeaseRecord) (holder : ℕ)
      → (check_schema (add_winner s a) b ≡ check_schema s b)
        × (check_mode (add_winner s a) b holder ≡ check_mode s b holder)
  unfolding check_schema check_mode add_winner
  add_winner-checks s a b holder = (refl, refl)

  -- After a winner `a`, a racing record `b` that would have won in its place is settled, and the one
  -- with the greater signature wins.
  race-Greater :
      (s sa sb : Capsule) (a b : LeaseRecord) (authorize : ℕ → LeaseMode → Bool)
      → EpochFits s
      → NoCollision s.leases
      → Races b a
      → accept_lease s a authorize ≡ ok (true, sa)
      → accept_lease s b authorize ≡ ok (true, sb)
      → (x : Bool) × (s' : Capsule) × (accept_lease sa b authorize ≡ ok (x, s'))
        × (w : LeaseRecord) × (winning_lease s' ≡ some w)
        × Greater w a b
  race-Greater s sa sb a b authorize fits n races ha hb =
      let (won, same) = accept_lease-true s a authorize sa ha in
      let (p, passed, o) = accepted s b authorize true sb hb in
      let (goes, _) = settled_of s b p sb o in
      let mode = checked_of s b p sb o in
      let race = is_race_of sa b a won races in
      let (schema, modes) = add_winner-checks s a b p.holder in
      let passed' : Passed (add_winner s a) b authorize p = record {
        schema = schema ∙ passed.schema;
        ttl = passed.ttl;
        pred =
            predecessor-race s a b p fits n (subst (λ z. is_race z b ≡ true) same race) passed.pred
              goes;
        signed = passed.signed;
        allowed = passed.allowed;
      } in
      let (x, s', settled) = settle_race-total sa b a won race in
      let accepts =
        accept_lease-settle sa b authorize p
          (subst (λ z. Passed z b authorize p) (sym same) passed') goes
          (ap (λ (z : Capsule). check_mode z b p.holder) same ∙ (modes ∙ mode)) in
      let (w, wins, greater) = choose sa a b x s' won (settle-race sa b a x s' won race settled) in
      (x, s', accepts ∙ settled, w, wins, greater)

  -- Two leases race for one epoch, and each wins where it comes alone. Then each is accepted after the
  -- other, and both orders of arrival end with the same winner, given that the epoch of the winner
  -- before them, if there is one, is positive and in range, that their signatures differ and that no
  -- two different leases that were accepted before have one hash.
  pub race_confluent :
      (s sa sb : Capsule) (a b : LeaseRecord) (authorize : ℕ → LeaseMode → Bool)
      → EpochFits s
      → NoCollision s.leases
      → Races b a
      → a.sig ≢ b.sig
      → accept_lease s a authorize ≡ ok (true, sa)
      → accept_lease s b authorize ≡ ok (true, sb)
      → (x : Bool) × (y : Bool) × (sab : Capsule) × (sba : Capsule) × (accept_lease sa b authorize
          ≡ ok (x, sab))
        × (accept_lease sb a authorize ≡ ok (y, sba))
        × (winning_lease sab ≡ winning_lease sba)
  race_confluent s sa sb a b authorize fits n races differ ha hb =
      let (x, sab, second, w1, e1, g1) = race-Greater s sa sb a b authorize fits n races ha hb in
      let (y, sba, first, w2, e2, g2) =
        race-Greater s sb sa b a authorize fits n
          (record { epoch = sym races.epoch; prev = sym races.prev }) hb ha in
      (x, y, sab, sba, second, first, e1 ∙ ap some (Greater-eq a b w1 w2 differ g1 g2) ∙ sym e2)
