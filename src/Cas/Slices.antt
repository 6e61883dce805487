-- ===== src/Cas/Slices.antt =====
-- Texts that are cut where the decoder of trees cuts them (crates/abra-core/src/cas.rs).
use abra.Prelude.{
  ℕ, zero, suc, ◌+◌, ◌≤◌, ◌≡◌, refl, sym, ap, ◌∙◌, Bytes, Bool, true, false, inl, inr, some, [],
  ◌∷◌, ◌++◌, any, length, take, drop, ◌==◌, nat_eq, bytes_eq, Option-cases, arith,
}
use abra.Prelude.BigEndian.{are_bytes}
use abra.Cas.Tree.{split_at}

abbrev pub has : ℕ → Bytes → Bool
has b s = any (λ c. c == b) s

pub split_at-append :
    (sep : ℕ) (s t : Bytes) → has sep s ≡ false → split_at sep (s ++ (sep ∷ t)) ≡ some (s, t)
unfolding split_at
split_at-append sep [] t h = ground arith
split_at-append sep (b ∷ s) t h = ground (arith, split_at-append sep s t)

pub split_at-parts :
    (sep : ℕ) (s before after : Bytes)
    → split_at sep s ≡ some (before, after)
    → s ≡ before ++ (sep ∷ after)
unfolding split_at
split_at-parts sep [] before after h = ground arith
split_at-parts sep (b ∷ s) before after h = elim (Option-cases (split_at sep s)) [
  | inl absent ↦ ground arith
  | inr ((u, v), found) ↦ ground (arith, split_at-parts sep s u v)
]

pub take-append : (n : ℕ) (s t : Bytes) → length s ≡ n → take n (s ++ t) ≡ s
take-append zero [] t h = refl
take-append zero (b ∷ s) t h = ground arith
take-append (suc n) [] t h = ground arith
take-append (suc n) (b ∷ s) t h = ap (λ u. b ∷ u) (take-append n s t (omega (arith, h)))

pub drop-append : (n : ℕ) (s t : Bytes) → length s ≡ n → drop n (s ++ t) ≡ t
drop-append zero [] t h = refl
drop-append zero (b ∷ s) t h = ground arith
drop-append (suc n) [] t h = ground arith
drop-append (suc n) (b ∷ s) t h = drop-append n s t (omega (arith, h))

pub take-drop : (n : ℕ) (s : Bytes) → take n s ++ drop n s ≡ s
take-drop zero s = refl
take-drop (suc n) [] = refl
take-drop (suc n) (b ∷ s) = ap (λ u. b ∷ u) (take-drop n s)

pub length-take : (n : ℕ) (s : Bytes) → n ≤ length s → length (take n s) ≡ n
length-take zero s h = refl
length-take (suc n) [] h = omega (arith, h)
length-take (suc n) (b ∷ s) h = ground (arith, length-take n s)

drop-nil : (n : ℕ) → drop {A = ℕ} n [] ≡ []
drop-nil zero = refl
drop-nil (suc n) = refl

pub drop-drop : (n m k : ℕ) (s : Bytes) → n + m ≡ k → drop m (drop n s) ≡ drop k s
drop-drop zero m k s e = ap (λ j. drop j s) (omega (arith, e))
drop-drop (suc n) m k [] e = drop-nil m ∙ sym (drop-nil k)
drop-drop (suc n) m zero (b ∷ s) e = ground arith
drop-drop (suc n) m (suc k) (b ∷ s) e = drop-drop n m k s (omega (arith, e))

pub length-drop : (n : ℕ) (s : Bytes) → n ≤ length s → n + length (drop n s) ≡ length s
length-drop zero s h = omega arith
length-drop (suc n) [] h = omega (arith, h)
length-drop (suc n) (b ∷ s) h = omega (arith, h, length-drop n s (omega (arith, h)))

pub are_bytes-append :
    (s t : Bytes) → are_bytes (s ++ t) ≡ true → (are_bytes s ≡ true) × (are_bytes t ≡ true)
are_bytes-append [] t h = (refl, h)
are_bytes-append (b ∷ s) t h = ground (arith, are_bytes-append s t)
