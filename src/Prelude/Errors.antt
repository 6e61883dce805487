-- ===== src/Prelude/Errors.antt =====
-- The error types of abra-core (crates/abra-core/src/error.rs) and abra-net as one, and `Result`.
use Prim.Native.String.{String}
use mathlib.Core.Path.{◌≡◌, refl}
use mathlib.Core.Logic.{◌⊎◌, inl, inr}
use mathlib.Core.Bool.{Bool, true, false}
use mathlib.Core.Option.{Option, none, some}

-- The texts are the messages, without the values that the program formats into them.
pub data Error : Type 0 where
  io bare_io json invalid bad_signature unsupported_spec : String → Error
  encoding not_found corrupt : String → String → Error
  -- of abra-net (crates/abra-net/src/error.rs)
  protocol authentication authorization transport : String → Error
  timeout : Error
  -- the program panics, as on `unwrap` of `None`
  panic : String → Error

pub data Result {ℓ} (Value : Type ℓ) : Type ℓ where
  err : Error → Result Value
  ok : Value → Result Value

infixl 5 ◌>>◌ ◌>>=◌
-- the operator `?`
abbrev pub ◌>>=◌ {ℓ κ} :
    {Value : Type ℓ} {Next : Type κ} → Result Value → (Value → Result Next) → Result Next
err failure >>= then = err failure
ok value >>= then = then value

-- `?` on a result whose value is not used
abbrev pub ◌>>◌ {ℓ} : {Next : Type ℓ} → Result (Unit {0}) → Result Next → Result Next
first >> next = first >>= λ done. next

-- `if test { return Err(e) }`
abbrev pub refuse_if : Bool → Error → Result (Unit {0})
refuse_if true e = err e
refuse_if false e = ok tt

abbrev pub ok_or {ℓ} : {A : Type ℓ} → Option A → Error → Result A
ok_or none e = err e
ok_or (some a) e = ok a

abbrev pub is_ok {ℓ} : {A : Type ℓ} → Result A → Bool
is_ok (ok a) = true
is_ok (err e) = false

pub >>=-eq-ok {ℓ κ} :
    {Value : Type ℓ} {Next : Type κ} (first : Result Value) (then : Value → Result Next)
    {result : Next}
    → (first >>= then) ≡ ok result
    → (value : Value) × (first ≡ ok value) × (then value ≡ ok result)
>>=-eq-ok (err failure) then done = cc
>>=-eq-ok (ok value) then done = (value, refl, done)

pub Result-cases {ℓ} :
    {Value : Type ℓ} (r : Result Value) → ((e : Error) × (r ≡ err e)) ⊎ ((v : Value) × (r ≡ ok v))
Result-cases (err e) = inl (e, refl)
Result-cases (ok v) = inr (v, refl)

pub >>-parts {ℓ} :
    {Next : Type ℓ} (first : Result (Unit {0})) (next : Result Next) {result : Next}
    → (first >> next) ≡ ok result
    → (first ≡ ok tt) × (next ≡ ok result)
>>-parts (err failure) next done = cc
>>-parts (ok u) next done = (refl, done)
