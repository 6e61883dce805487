-- ===== src/Examples/Leases.antt =====
-- Leases: a grant, a transfer, and two takeovers that race.
use abra.Prelude.{
  ℕ, ◌^◌, ◌<◌, ◌≡◌, refl, Bool, true, false, some, List, [], ◌∷◌, arith, ok, err, invalid,
}
use abra.Capsule.LeaseRecord.{LeaseRecord, LeaseMode}
use abra.Capsule.State.{Capsule, winning_lease}
use abra.Capsule.Lease.{accept_lease}
use abra.Capsule.Lease.Win.{
  Supersedes, HandedOver, accept_lease-Supersedes, accept_lease-HandedOver,
}
use abra.Capsule.Lease.Invariant.{IsSound}
use abra.Capsule.Lease.History.{run, Climbs, run-IsSound}
use abra.Capsule.Lease.Race.{race_confluent}
use abra.Examples.Toy.{toy, empty, lease, anyone, lease_code}

abbrev grant : LeaseRecord
grant = lease 5 1 LeaseMode.grant 194945 1005

-- Two takeovers of the second epoch.
abbrev pub low : LeaseRecord
low = lease 8 2 LeaseMode.takeover 160036 2008

abbrev high : LeaseRecord
high = lease 9 2 LeaseMode.takeover 160036 3009

-- A record that continues nothing.
abbrev stray : LeaseRecord
stray = lease 9 7 LeaseMode.takeover 160036 4009

abbrev pub granted : Capsule
granted = record empty { leases = grant ∷ []; winner = some 0 }

abbrev pub low_won : Capsule
low_won = record granted { leases = grant ∷ low ∷ []; winner = some 1 }

abbrev high_won : Capsule
high_won = record granted { leases = grant ∷ high ∷ []; winner = some 1 }

abbrev pub low_high : Capsule
low_high = record granted { leases = grant ∷ low ∷ high ∷ []; winner = some 2 }

abbrev high_low : Capsule
high_low = record granted { leases = grant ∷ high ∷ low ∷ []; winner = some 1 }

grant_wins : accept_lease empty grant anyone ≡ ok (true, granted)
unfolding lease_code
grant_wins = refl

low_wins : accept_lease granted low anyone ≡ ok (true, low_won)
unfolding lease_code
low_wins = refl

high_wins : accept_lease granted high anyone ≡ ok (true, high_won)
unfolding lease_code
high_wins = refl

high_after_low : accept_lease low_won high anyone ≡ ok (true, low_high)
unfolding lease_code
high_after_low = refl

low_after_high : accept_lease high_won low anyone ≡ ok (false, high_low)
unfolding lease_code
low_after_high = refl

stray_is_evidence :
    accept_lease granted stray anyone ≡ ok (false, record granted { evidence = stray ∷ [] })
unfolding lease_code
stray_is_evidence = refl

unauthorized :
    accept_lease granted low (λ _ _. false) ≡ err (invalid "lease holder is not authorized")
unfolding lease_code
unauthorized = refl

granted_winner : winning_lease granted ≡ some grant
unfolding lease_code
granted_winner = refl

granted-IsSound : IsSound granted grant
granted-IsSound = record {
  winner = granted_winner;
  epoch_pos = omega arith;
  epoch_fits = omega arith;
  evidence = omega arith;
}

accept_lease-Supersedes_example : Supersedes low grant
accept_lease-Supersedes_example =
    accept_lease-Supersedes granted low grant anyone low_won granted_winner (omega arith) low_wins

accept_lease-HandedOver_example : HandedOver grant low anyone
accept_lease-HandedOver_example =
    accept_lease-HandedOver granted low grant anyone low_won granted_winner (omega arith)
      (omega arith) low_wins

abbrev arrivals : List (LeaseRecord × (ℕ → LeaseMode → Bool))
arrivals = (stray, anyone) ∷ (high, anyone) ∷ (low, anyone) ∷ []

run-IsSound_example : (w' : LeaseRecord) × IsSound (run granted arrivals) w' × Climbs grant w'
run-IsSound_example = run-IsSound granted grant arrivals granted-IsSound (omega arith)

granted_fits :
    (w : LeaseRecord) → winning_lease granted ≡ some w → (0 < w.epoch) × (w.epoch < 2 ^ 64)
granted_fits w h = ground (arith, granted_winner)

race_confluent_example :
    (x : Bool) × (y : Bool) × (sab : Capsule) × (sba : Capsule) × (accept_lease low_won high anyone
      ≡ ok (x, sab))
    × (accept_lease high_won low anyone ≡ ok (y, sba))
    × (winning_lease sab ≡ winning_lease sba)
unfolding lease_code
race_confluent_example =
    race_confluent granted low_won high_won low high anyone granted_fits (tt, tt) (omega arith)
      (λ e. omega arith) low_wins high_wins
