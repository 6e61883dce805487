-- ===== src/Net/Time.antt =====
-- `format_time` and `parse_time` of crates/abra-net/src/auth.rs.
use abra.Prelude.Int.{ℤ, pos, negsuc}
use abra.Prelude.{
  ℕ, zero, suc, ◌+◌, ◌-◌, ◌*◌, ◌/◌, ◌%◌, ◌≡◌, refl, Bytes, ascii, not, ◌||◌, [], ◌∷◌, ◌++◌, all,
  length, slice, ◌==◌, nat_eq, ltb, leb, Result, ok, err, protocol, ◌>>=◌, ◌>>◌, refuse_if,
  if◌then◌else◌,
}
use abra.Canonical.Write.{digits}
use abra.Time.Validate.{has_separators, is_ascii_digit, number_from, is_leap, days_in_month}
use abra.Time.Civil.{days_from_civil}
use abra.Prelude.Int.{◌+ℤ◌, ◌*ℤ◌}

-- `{n:0w}`: zeros in front, up to the width.
unfoldable pub zeros : ℕ → Bytes
zeros zero = []
zeros (suc n) = b'0' ∷ zeros n

unfoldable pub pad : ℕ → ℕ → Bytes
unfolding zeros digits
pad width n = let s = digits 20 n in zeros (width - length s) ++ s

-- The date of a day number, counted from 1970-01-01. `days` comes from a `u64` of milliseconds, so
-- that no difference is negative.
pub record Civil : Type 0 where
  pub year : ℕ
  pub month : ℕ
  pub day : ℕ

unfoldable pub civil_from_days : ℕ → Civil
civil_from_days days =
    let z = days + 719468 in
    let era = z / 146097 in
    let doe = z - era * 146097 in
    let yoe = (doe - doe / 1460 + doe / 36524 - doe / 146096) / 365 in
    let doy = doe - (365 * yoe + yoe / 4 - yoe / 100) in
    let mp = (5 * doy + 2) / 153 in
    let m = (if ltb mp 10 then mp + 3 else mp - 9) in
    record {
      year = yoe + era * 400 + (if leb m 2 then 1 else 0);
      month = m;
      day = doy - (153 * mp + 2) / 5 + 1;
    }

unfoldable pub format_time : ℕ → Bytes
unfolding civil_from_days pad
format_time ms =
    let c = civil_from_days (ms / 86400000) in
    let rem = ms % 86400000 in
    let sec = rem / 1000 in
    pad 4 c.year
    ++ (b'-'
        ∷ (pad 2 c.month
            ++ (b'-'
                ∷ (pad 2 c.day
                    ++ (b'T'
                        ∷ (pad 2 (sec / 3600)
                            ++ (b':'
                                ∷ (pad 2 (sec / 60 % 60)
                                    ++ (b':'
                                        ∷ (pad 2 (sec % 60)
                                            ++ (b'.'
                                                ∷ (pad 3 (rem % 1000) ++ (b'Z' ∷ [])))))))))))))

-- `n(a, z)?`
unfoldable pub field : Bytes → ℕ → ℕ → Result ℕ
unfolding number_from
field b a z =
    if all is_ascii_digit (slice b a z)
    then ok (number_from 0 (slice b a z))
    else err (protocol "bad time")

-- `u64::try_from`; the numbers of a four-digit year are far below the limit of a `u64`.
abbrev pub as_u64 : ℤ → Result ℕ
as_u64 (pos n) = ok n
as_u64 (negsuc n) = err (protocol "time before epoch")

-- `is_ascii` follows from the other tests of a text of 24 bytes and stands here for itself.
unfoldable pub parse_time : Bytes → Result ℕ
unfolding has_separators field is_leap days_in_month days_from_civil ◌+ℤ◌ ◌*ℤ◌
parse_time b = do
  refuse_if (not (length b == 24) || (not (all (λ x. ltb x 128) b) || not (has_separators b)))
      (protocol "noncanonical time")
  y ← field b 0 4
  m ← field b 5 7
  d ← field b 8 10
  hh ← field b 11 13
  mm ← field b 14 16
  ss ← field b 17 19
  ms ← field b 20 23
  refuse_if
      (ltb d 1 || (ltb (days_in_month (is_leap y) m) d || (ltb 23 hh || (ltb 59 mm || ltb 59 ss))))
      (protocol "bad time")
  let days = days_from_civil (pos y) (pos m) (pos d)
  as_u64 (1000 *ℤ (86400 *ℤ days +ℤ pos (hh * 3600 + mm * 60 + ss)) +ℤ pos ms)

formats : format_time 1767268800123 ≡ ascii "2026-01-01T12:00:00.123Z"
unfolding format_time
formats = refl

parses : parse_time (ascii "2026-01-01T12:00:00.123Z") ≡ ok 1767268800123
unfolding parse_time
parses = refl
