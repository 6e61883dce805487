-- ===== src/Prelude/BigEndian.antt =====
-- `to_be_bytes` and `from_be_bytes`: numbers as fixed-width big-endian bytes.
use Prim.Native.Nat.{ℕ, zero, suc, ◌+◌, ◌*◌, ◌/◌, ◌%◌, ◌^◌, ◌<◌, ◌≤◌}
use mathlib.Core.Path.{◌≡◌, refl, ap, ◌∙◌}
use mathlib.Core.Bool.{Bool, true}
use mathlib.Core.List.{[], ◌∷◌, ◌++◌, append-nil, append_assoc}
use native.Mathlib.Omega.{arith}
use abra.Prelude.Tests.{ltb}
use abra.Prelude.Lists.{Bytes, length, all, length-append}

-- The `k` bytes of a number, also `as_bytes()` of a digest or key.
unfoldable pub to_be_bytes : ℕ → ℕ → Bytes
to_be_bytes zero n = []
to_be_bytes (suc k) n = to_be_bytes k (n / 256) ++ ((n % 256) ∷ [])

-- The number of bytes that stand behind those of `n`.
unfoldable pub be_from : ℕ → Bytes → ℕ
be_from n [] = n
be_from n (b ∷ s) = be_from (n * 256 + b) s

unfoldable pub from_be_bytes : Bytes → ℕ
unfolding be_from
from_be_bytes s = be_from 0 s

abbrev pub are_bytes : Bytes → Bool
are_bytes s = all (λ b. ltb b 256) s

be_from-append : (n : ℕ) (s t : Bytes) → be_from n (s ++ t) ≡ be_from (be_from n s) t
unfolding be_from
be_from-append n [] t = refl
be_from-append n (b ∷ s) t = be_from-append (n * 256 + b) s t

pub length-to_be_bytes : (k n : ℕ) → length (to_be_bytes k n) ≡ k
unfolding to_be_bytes
length-to_be_bytes zero n = refl
length-to_be_bytes (suc k) n = omega (
  arith,
  length-append (to_be_bytes k (n / 256)) ((n % 256) ∷ []),
  length-to_be_bytes k (n / 256),
)

pub from_be_bytes-to_be_bytes : (k n : ℕ) → n < 256 ^ k → from_be_bytes (to_be_bytes k n) ≡ n
unfolding from_be_bytes be_from to_be_bytes
from_be_bytes-to_be_bytes zero n small = omega arith
from_be_bytes-to_be_bytes (suc k) n small =
    let ih = from_be_bytes-to_be_bytes k (n / 256) (grind arith) in
    grind (arith, be_from-append 0 (to_be_bytes k (n / 256)) ((n % 256) ∷ []))

to_be_bytes-be_from :
    (s : Bytes) (k n size : ℕ)
    → length s + k ≡ size
    → are_bytes s ≡ true
    → to_be_bytes size (be_from n s) ≡ to_be_bytes k n ++ s
unfolding to_be_bytes be_from
to_be_bytes-be_from [] k n size e h = ground (arith, append-nil (to_be_bytes k n))
to_be_bytes-be_from (b ∷ s) k n size e h =
    let ih = to_be_bytes-be_from s (suc k) (n * 256 + b) size (ground arith) (ground arith) in
    let high : (n * 256 + b) / 256 ≡ n = ground arith in
    let low : (n * 256 + b) % 256 ≡ b = ground arith in
    let step : to_be_bytes (suc k) (n * 256 + b) ≡ to_be_bytes k n ++ (b ∷ []) =
      rw high (rw low refl) in
    ih ∙ ap (λ (t : Bytes). t ++ s) step ∙ append_assoc (to_be_bytes k n) (b ∷ []) s

pub to_be_bytes-from_be_bytes :
    (k : ℕ) (s : Bytes) → length s ≡ k → are_bytes s ≡ true → to_be_bytes k (from_be_bytes s) ≡ s
unfolding from_be_bytes to_be_bytes
to_be_bytes-from_be_bytes k s size h = to_be_bytes-be_from s 0 0 k (omega (arith, size)) h

digit-bound : (n b p : ℕ) → b < 256 → (n * 256 + b + 1) * p ≤ (n + 1) * (256 * p)
digit-bound n b p h = grind arith

be_from-bound : (s : Bytes) (n : ℕ) → are_bytes s ≡ true → be_from n s < (n + 1) * 256 ^ length s
unfolding be_from
be_from-bound [] n h = omega arith
be_from-bound (b ∷ s) n h =
    let ih = be_from-bound s (n * 256 + b) (ground arith) in
    let digit = digit-bound n b (256 ^ length s) (ground arith) in
    let power : 256 ^ suc (length s) ≡ 256 * 256 ^ length s = omega arith in
    rw power (omega (arith, ih, digit))

pub from_be_bytes-bound :
    (k : ℕ) (s : Bytes) → length s ≡ k → are_bytes s ≡ true → from_be_bytes s < 256 ^ k
unfolding from_be_bytes
from_be_bytes-bound k s size h = ground (arith, be_from-bound s 0 h)
