-- ===== src/Time/Civil.antt =====
-- `timestamp_ms` of crates/abra-core/src/capsule.rs. The numbers stay far inside an `i64`: a year
-- has four digits.
use abra.Prelude.Int.{ℤ, pos, negsuc, ◌+ℤ◌, ◌-ℤ◌, ◌*ℤ◌, ◌/ℤ◌, leb_ℤ}
use abra.Prelude.{
  ℕ, ◌≡◌, refl, Bytes, ascii, not, ◌&&◌, ◌||◌, [], ◌∷◌, all, slice, length, Option, none, some,
  ◌==◌, nat_eq, Result, ok, invalid, ◌>>=◌, ◌>>◌, refuse_if, ok_or, if◌then◌else◌,
}
use abra.Time.Validate.{validate_time, has_separators, is_ascii_digit, number_from}

-- Digits after a sign, at least one.
unfoldable pub parse_digits : Bytes → Option ℕ
unfolding number_from
parse_digits [] = none
parse_digits (c ∷ s) = if all is_ascii_digit (c ∷ s) then some (number_from 0 (c ∷ s)) else none

abbrev negate : Option ℕ → Option ℤ
negate none = none
negate (some n) = some (pos 0 -ℤ pos n)

abbrev plain : Option ℕ → Option ℤ
plain none = none
plain (some n) = some (pos n)

-- `str::parse::<i64>` of at most four bytes
unfoldable pub parse_i64 : Bytes → Option ℤ
unfolding parse_digits ◌-ℤ◌
parse_i64 [] = none
parse_i64 (c ∷ s) =
    if c == b'-'
    then negate (parse_digits s)
    else if c == b'+'
    then plain (parse_digits s)
    else plain (parse_digits (c ∷ s))

unfoldable pub field : Bytes → ℕ → ℕ → Result ℤ
unfolding parse_i64
field s a b = ok_or (parse_i64 (slice s a b)) (invalid "noncanonical lease time")

-- The day number of a date, from 1970-01-01.
unfoldable pub days_from_civil : ℤ → ℤ → ℤ → ℤ
unfolding ◌+ℤ◌ ◌-ℤ◌ ◌*ℤ◌ ◌/ℤ◌
days_from_civil y0 m d =
    let y = y0 -ℤ (if leb_ℤ m (pos 2) then pos 1 else pos 0) in
    let era = (if leb_ℤ (pos 0) y then y else y -ℤ pos 399) /ℤ 400 in
    let yoe = y -ℤ 400 *ℤ era in
    let mp = m +ℤ (if leb_ℤ m (pos 2) then pos 9 else negsuc 2) in
    let doy = (153 *ℤ mp +ℤ pos 2) /ℤ 5 +ℤ d -ℤ pos 1 in
    let doe = 365 *ℤ yoe +ℤ yoe /ℤ 4 -ℤ yoe /ℤ 100 +ℤ doy in 146097 *ℤ era +ℤ doe -ℤ pos 719468

unfoldable pub timestamp_ms : Bytes → Result ℤ
unfolding validate_time has_separators field days_from_civil ◌+ℤ◌ ◌*ℤ◌
timestamp_ms s = do
  validate_time s
  refuse_if (not (length s == 24) || not (has_separators s)) (invalid "noncanonical lease time")
  y ← field s 0 4
  m ← field s 5 7
  d ← field s 8 10
  hh ← field s 11 13
  mm ← field s 14 16
  ss ← field s 17 19
  ms ← field s 20 23
  refuse_if
      (not (leb_ℤ (pos 1) m && leb_ℤ m (pos 12))
        || (not (leb_ℤ (pos 1) d)
            || (not (leb_ℤ hh (pos 23)) || (not (leb_ℤ mm (pos 59)) || not (leb_ℤ ss (pos 59))))))
      (invalid "invalid lease time")
  let days = days_from_civil y m d
  ok (1000 *ℤ (60 *ℤ (60 *ℤ (24 *ℤ days +ℤ hh) +ℤ mm) +ℤ ss) +ℤ ms)

epoch : timestamp_ms (ascii "1970-01-01T00:00:00.000Z") ≡ ok (pos 0)
unfolding timestamp_ms
epoch = refl

recent : timestamp_ms (ascii "2024-03-01T12:30:15.250Z") ≡ ok (pos 1709296215250)
unfolding timestamp_ms
recent = refl

year_zero : timestamp_ms (ascii "0000-01-01T00:00:00.000Z") ≡ ok (pos 0 -ℤ pos 62167219200000)
unfolding timestamp_ms
year_zero = refl
