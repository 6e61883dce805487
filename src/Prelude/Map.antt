-- ===== src/Prelude/Map.antt =====
-- `BTreeMap` as an association list with distinct keys. The order of iteration is that of the
-- insertions: the program's uses of it here do not depend on the order.
use Prim.Native.Nat.{◌+◌}
use mathlib.Core.Path.{◌≡◌, refl}
use mathlib.Core.Bool.{Bool, true}
use mathlib.Core.List.{List, [], ◌∷◌, map}
use mathlib.Core.Option.{Option, none, some}
use native.Mathlib.Omega.{arith}
use abra.Prelude.Tests.{if◌then◌else◌, is_some}
use abra.Prelude.Lists.{length}
use abra.Prelude.Keys.{Eq, ◌==◌, ==_refl}

abbrev pub Map {ℓ κ} : Type ℓ → Type κ → Type (ℓ ⊔ κ)
Map K V = List (K × V)

module _ {ℓ κ} {K : Type ℓ} {V : Type κ} where
  abbrev pub keys : Map K V → List K
  keys = map (λ e. e.0)

  abbrev pub values : Map K V → List V
  values = map (λ e. e.1)

  module _ ⦃e : Eq K⦄ where
    unfoldable pub get : Map K V → K → Option V
    get [] k = none
    get ((j, v) ∷ m) k = if j == k then some v else get m k

    unfoldable pub insert : Map K V → K → V → Map K V
    insert [] k v = (k, v) ∷ []
    insert ((j, w) ∷ m) k v = if j == k then (j, v) ∷ m else (j, w) ∷ insert m k v

    unfoldable pub contains_key : Map K V → K → Bool
    unfolding get
    contains_key m k = is_some (get m k)

    pub get-insert :
        (m : Map K V) (k j : K) (v : V)
        → get (insert m k v) j ≡ (if k == j then some v else get m j)
    unfolding get insert
    get-insert [] k j v = refl
    get-insert ((i, w) ∷ m) k j v =
        ground (arith, get-insert m k j v, e.same_iff i k, e.same_iff i j, e.same_iff k j)

    pub get-insert_self : (m : Map K V) (k : K) (v : V) → get (insert m k v) k ≡ some v
    get-insert_self m k v = ground (arith, get-insert m k k v, ==_refl k)

    pub length-insert :
        (m : Map K V) (k : K) (v : V)
        → length (insert m k v) ≡ (if contains_key m k then length m else length m + 1)
    unfolding get insert contains_key
    length-insert [] k v = omega arith
    length-insert ((i, w) ∷ m) k v = ground (arith, length-insert m k v)

    pub contains_key-insert_old :
        (m : Map K V) (k j : K) (v : V)
        → contains_key m j ≡ true
        → contains_key (insert m k v) j ≡ true
    unfolding contains_key
    contains_key-insert_old m k j v h = ground (arith, get-insert m k j v)
