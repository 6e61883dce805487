-- ===== src/Capsule/Lease/History.antt =====
-- The leases of a capsule over any sequence of records.
use abra.Crates.{Crates}
use abra.Prelude.{ℕ, ◌^◌, ◌<◌, ◌≡◌, refl, inl, inr, Bool, List, [], ◌∷◌, Result, ok, err}
use abra.Capsule.LeaseRecord.{LeaseRecord, LeaseMode}
use abra.Capsule.State.{Capsule}
use abra.Capsule.Lease.{accept_lease}
use abra.Capsule.Lease.Win.{Supersedes}
use abra.Capsule.Lease.Invariant.{IsSound, Stays, Follows, accept_lease-IsSound}

module _ ⦃c : Crates⦄ where
  -- A call that fails leaves the capsule as it is.
  abbrev pub after : Capsule → Result (Bool × Capsule) → Capsule
  after s (ok (_, s')) = s'
  after s (err _) = s

  -- The records in the order of their arrival, each with the authorization at that time.
  unfoldable pub run : Capsule → List (LeaseRecord × (ℕ → LeaseMode → Bool)) → Capsule
  run s [] = s
  run s ((r, authorize) ∷ rs) = run (after s (accept_lease s r authorize)) rs

  -- The order that the winners of a capsule climb.
  pub data Climbs (w : LeaseRecord) : LeaseRecord → Type 0 where
    same : Climbs w w
    climb : {u v : LeaseRecord} → Climbs w u → Supersedes v u → Climbs w v

  abbrev pub FitAll : List (LeaseRecord × (ℕ → LeaseMode → Bool)) → Type 0
  FitAll [] = Unit {0}
  FitAll ((r, _) ∷ rs) = (r.epoch < 2 ^ 64) × FitAll rs

  climb_on : {u v w : LeaseRecord} → Climbs w u → Follows v u → Climbs w v
  climb_on k (inl e) = rw e k
  climb_on k (inr h) = climb k h

  after-Stays :
      (s : Capsule) (r w : LeaseRecord) (authorize : ℕ → LeaseMode → Bool)
      (o : Result (Bool × Capsule))
      → accept_lease s r authorize ≡ o
      → IsSound s w
      → r.epoch < 2 ^ 64
      → Stays s w (after s o)
  after-Stays s r w authorize (ok (b, s')) e v fits =
      accept_lease-IsSound s r w authorize b s' v fits e
  after-Stays s r w authorize (err x) e v fits = record { next = w; sound = v; follows = inl refl }

  run-from :
      (s : Capsule) (w₀ w : LeaseRecord) (rs : List (LeaseRecord × (ℕ → LeaseMode → Bool)))
      → IsSound s w
      → Climbs w₀ w
      → FitAll rs
      → (w' : LeaseRecord) × IsSound (run s rs) w' × Climbs w₀ w'
  unfolding run
  run-from s w₀ w [] v k fits = (w, v, k)
  run-from s w₀ w ((r, authorize) ∷ rs) v k fits =
      let o = accept_lease s r authorize in
      let st = after-Stays s r w authorize o refl v fits.0 in
      run-from (after s o) w₀ st.next rs st.sound (climb_on k st.follows) fits.1

  -- From a sound capsule, whatever records arrive in whatever order, accepted or refused, the capsule
  -- stays sound: it has a winner whose epoch is in range, and at most 64 records of evidence. The
  -- winner is reached from the first by steps that each raise the epoch by one, or keep the epoch
  -- and the predecessor and raise the signature.
  pub run-IsSound :
      (s : Capsule) (w : LeaseRecord) (rs : List (LeaseRecord × (ℕ → LeaseMode → Bool)))
      → IsSound s w
      → FitAll rs
      → (w' : LeaseRecord) × IsSound (run s rs) w' × Climbs w w'
  run-IsSound s w rs v fits = run-from s w w rs v same fits
