-- ===== src/Time/Validate.antt =====
-- `validate_time` of crates/abra-core/src/manifest.rs.
use abra.Prelude.{
  ℕ, suc, ◌+◌, ◌-◌, ◌*◌, ◌%◌, ◌≡◌, refl, Bytes, ascii, Bool, true, not, ◌&&◌, ◌||◌, [], ◌∷◌, length,
  get_or, slice, ◌==◌, nat_eq, ltb, leb, Result, ok, err, invalid, ◌>>◌, refuse_if, if◌then◌else◌,
}

abbrev pub is_ascii_digit : ℕ → Bool
is_ascii_digit b = leb 48 b && leb b 57

-- The bytes that separate the fields of `YYYY-MM-DDThh:mm:ss.mmmZ`.
unfoldable pub has_separators : Bytes → Bool
has_separators b =
    get_or b 4 0 == b'-'
    && (get_or b 7 0 == b'-'
        && (get_or b 10 0 == b'T'
            && (get_or b 13 0 == b':'
                && (get_or b 16 0 == b':' && (get_or b 19 0 == b'.' && get_or b 23 0 == b'Z')))))

-- `[4, 7, 10, 13, 16, 19, 23].contains(&i)`
abbrev pub is_separator : ℕ → Bool
is_separator i = i == 4 || (i == 7 || (i == 10 || (i == 13 || (i == 16 || (i == 19 || i == 23)))))

unfoldable pub digits_from : ℕ → Bytes → Bool
digits_from i [] = true
digits_from i (c ∷ b) = (is_separator i || is_ascii_digit c) && digits_from (suc i) b

-- `parse::<u32>()` of digits
unfoldable pub number_from : ℕ → Bytes → ℕ
number_from v [] = v
number_from v (c ∷ b) = number_from (v * 10 + (c - 48)) b

unfoldable pub num : Bytes → ℕ → ℕ → ℕ
unfolding number_from
num s a z = number_from 0 (slice s a z)

unfoldable pub is_leap : ℕ → Bool
is_leap year = year % 4 == 0 && (not (year % 100 == 0) || year % 400 == 0)

unfoldable pub days_in_month : Bool → ℕ → ℕ
days_in_month leap m =
    if m == 1 || (m == 3 || (m == 5 || (m == 7 || (m == 8 || (m == 10 || m == 12)))))
    then 31
    else if m == 4 || (m == 6 || (m == 9 || m == 11))
    then 30
    else if m == 2
    then (if leap then 29 else 28)
    else 0

unfoldable pub validate_time : Bytes → Result (Unit {0})
unfolding has_separators digits_from num is_leap days_in_month
validate_time s = do
  refuse_if (not (length s == 24) || (not (has_separators s) || not (digits_from 0 s)))
      (invalid "noncanonical time")
  let days = days_in_month (is_leap (num s 0 4)) (num s 5 7)
  let day = num s 8 10
  refuse_if
      (day == 0
        || (ltb days day
            || (ltb 23 (num s 11 13) || (ltb 59 (num s 14 16) || ltb 59 (num s 17 19)))))
      (invalid "invalid canonical time value")

accepts_leap_day : validate_time (ascii "2024-02-29T23:59:59.999Z") ≡ ok tt
unfolding validate_time
accepts_leap_day = refl

refuses_leap_day :
    validate_time (ascii "2023-02-29T00:00:00.000Z") ≡ err (invalid "invalid canonical time value")
unfolding validate_time
refuses_leap_day = refl
