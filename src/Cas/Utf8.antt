-- ===== src/Cas/Utf8.antt =====
-- `std::str::from_utf8`: is a byte string well-formed UTF-8?
use abra.Prelude.{
  ℕ, ◌-◌, Bytes, ascii, Bool, true, false, not, ◌&&◌, Option, none, some, [], ◌∷◌, ◌==◌, nat_eq,
  ltb, leb, ◌≡◌, refl, if◌then◌else◌,
}

-- How many bytes follow a first byte, and the range of the next one.
pub record Tail : Type 0 where
  pub count : ℕ
  pub low : ℕ
  pub high : ℕ

abbrev tail : ℕ → ℕ → ℕ → Option Tail
tail count low high = some (record { count = count; low = low; high = high })

-- Table 3-7 of the Unicode standard
unfoldable pub tail_of : ℕ → Option Tail
tail_of b =
    if ltb b 128
    then tail 0 0 0
    else if leb 194 b && leb b 223
    then tail 1 128 191
    else if b == 224
    then tail 2 160 191
    else if b == 237
    then tail 2 128 159
    else if leb 225 b && leb b 239
    then tail 2 128 191
    else if b == 240
    then tail 3 144 191
    else if leb 241 b && leb b 243
    then tail 3 128 191
    else if b == 244
    then tail 3 128 143
    else none

-- `some t` is a character that `t` must continue.
unfoldable pub utf8_from : Option Tail → Bytes → Bool
utf8_from none s = false
utf8_from (some t) [] = t.count == 0
utf8_from (some t) (b ∷ s) =
    let next =
      (if t.count == 0
        then tail_of b
        else if leb t.low b && leb b t.high
        then tail (t.count - 1) 128 191
        else none) in
    utf8_from next s

unfoldable pub is_utf8 : Bytes → Bool
unfolding utf8_from tail_of
is_utf8 s = utf8_from (tail 0 0 0) s

utf8_tests :
    (is_utf8 (ascii "plain")
      && (is_utf8 (b'a' ∷ (195 ∷ (169 ∷ [])))
          && (not (is_utf8 (195 ∷ []))
              && (not (is_utf8 (192 ∷ (128 ∷ []))) && not (is_utf8 (237 ∷ (160 ∷ (128 ∷ []))))))))
    ≡ true
unfolding is_utf8
utf8_tests = refl
