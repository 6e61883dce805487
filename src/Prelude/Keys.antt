-- ===== src/Prelude/Keys.antt =====
-- Equality tests as an interface: numbers and byte strings are the keys of the program's maps.
use Prim.Native.Nat.{ℕ}
use mathlib.Core.Path.{◌≡◌, refl}
use mathlib.Core.Logic.{◌↔◌}
use mathlib.Core.Bool.{Bool, true, false, ◌&&◌}
use mathlib.Core.List.{List, [], ◌∷◌}
use native.Mathlib.Omega.{arith}
use abra.Prelude.Tests.{nat_beq, nat_beq_iff}

pub record Eq {ℓ} (Key : Type ℓ) : Type ℓ where
  pub same : Key → Key → Bool
  pub same_iff : (k l : Key) → (same k l ≡ true) ↔ (k ≡ l)

infix 50 ◌==◌
abbrev pub ◌==◌ {ℓ} : {Key : Type ℓ} ⦃keys : Eq Key⦄ → Key → Key → Bool
◌==◌ ⦃keys⦄ k l = keys.same k l

module _ {ℓ} {A : Type ℓ} ⦃e : Eq A⦄ where
  pub ==_refl : (a : A) → (a == a) ≡ true
  ==_refl a = (e.same_iff a a).1 refl

  unfoldable pub list_beq : List A → List A → Bool
  list_beq [] [] = true
  list_beq (x ∷ xs) (y ∷ ys) = (x == y) && list_beq xs ys
  list_beq _ _ = false

  pub eq-list_beq : (xs ys : List A) → list_beq xs ys ≡ true → xs ≡ ys
  unfolding list_beq
  eq-list_beq [] [] h = refl
  eq-list_beq [] (y ∷ ys) h = ground arith
  eq-list_beq (x ∷ xs) [] h = ground arith
  eq-list_beq (x ∷ xs) (y ∷ ys) h = ground (arith, e.same_iff x y, eq-list_beq xs ys)

  pub list_beq_refl : (xs : List A) → list_beq xs xs ≡ true
  unfolding list_beq
  list_beq_refl [] = refl
  list_beq_refl (x ∷ xs) = ground (arith, ==_refl x, list_beq_refl xs)

  pub list_beq_iff : (xs ys : List A) → (list_beq xs ys ≡ true) ↔ (xs ≡ ys)
  list_beq_iff xs ys = (eq-list_beq xs ys, λ p. subst_right p (list_beq_refl xs))
    where
      subst_right : {zs : List A} → xs ≡ zs → list_beq xs xs ≡ true → list_beq xs zs ≡ true
      subst_right p h = cc

instance abbrev pub nat_eq : Eq ℕ
nat_eq = record { same = nat_beq; same_iff = nat_beq_iff }

instance abbrev pub bytes_eq : Eq (List ℕ)
bytes_eq = record { same = list_beq; same_iff = list_beq_iff }
