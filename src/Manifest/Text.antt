-- ===== src/Manifest/Text.antt =====
-- The checks on texts of crates/abra-core/src/manifest.rs.
use abra.Prelude.{
  ℕ, suc, ◌≡◌, refl, Bytes, ascii, Bool, true, false, not, ◌&&◌, ◌||◌, List, [], ◌∷◌, length,
  get_or, any, all, ◌==◌, nat_eq, bytes_eq, list_beq, ltb, leb, Error, Result, refuse_if,
  if◌then◌else◌,
}

abbrev pub is_lower : ℕ → Bool
is_lower b = leb b'a' b && leb b b'z'

abbrev pub is_digit : ℕ → Bool
is_digit b = leb b'0' b && leb b b'9'

abbrev pub is_alphabetic : ℕ → Bool
is_alphabetic b = is_lower b || (leb b'A' b && leb b b'Z')

-- `s.chars().count()`: the bytes that continue no character
unfoldable pub char_count : Bytes → ℕ
char_count [] = 0
char_count (b ∷ s) = if leb 128 b && ltb b 192 then char_count s else suc (char_count s)

push_front : ℕ → List Bytes → List Bytes
push_front c [] = (c ∷ []) ∷ []
push_front c (p ∷ ps) = (c ∷ p) ∷ ps

-- `s.split(sep)`
unfoldable pub split : ℕ → Bytes → List Bytes
unfolding push_front
split sep [] = [] ∷ []
split sep (b ∷ s) = let rest = split sep s in if b == sep then [] ∷ rest else push_front b rest

-- An error for a text whose characters are too few or too many, or that holds a control character.
unfoldable pub validate_text : Bytes → ℕ → ℕ → Bool → Error → Result (Unit {0})
unfolding char_count
validate_text s low high controls e =
    refuse_if
      (ltb (char_count s) low || (ltb high (char_count s) || (controls && any (λ c. leb c 31) s))) e

unfoldable pub reverse_dns : Bytes → Bool
unfolding split
reverse_dns s =
    let p = split b'.' s in
    leb 2 (length p) && all (λ x. not (length x == 0) && all (λ b. is_lower b || is_digit b) x) p

unfoldable pub is_adapter : Bytes → Bool
is_adapter s =
    not (length s == 0)
    && (leb (length s) 128
        && all (λ b. is_lower b || (is_digit b || (b == b'.' || (b == b'_' || b == b'-')))) s)

unfoldable pub is_label_name : Bytes → Bool
is_label_name s =
    not (length s == 0)
    && (leb (length s) 64
        && (is_lower (get_or s 0 0)
            && all (λ b. is_lower b || (is_digit b || (b == b'.' || (b == b'_' || b == b'-')))) s))

unfoldable pub is_relative : Bytes → Bool
unfolding split list_beq
is_relative s =
    s == ascii "."
    || (not (length s == 0)
        && (not (get_or s 0 0 == b'/')
            && (not (any (λ b. b == 0) s)
                && all (λ x. not (length x == 0) && (not (x == ascii ".") && not (x == ascii "..")))
                    (split b'/' s))))

-- The scheme's bytes behind the first, up to the first colon, with something behind it.
unfoldable pub scheme_rest : Bytes → Bool
scheme_rest [] = false
scheme_rest (b ∷ s) =
    if b == b':'
    then not (length s == 0)
    else (is_alphabetic b || (is_digit b || (b == b'+' || (b == b'-' || b == b'.'))))
      && scheme_rest s

unfoldable pub is_absolute_uri : Bytes → Bool
unfolding scheme_rest
is_absolute_uri [] = false
is_absolute_uri (b ∷ s) = is_alphabetic b && scheme_rest s

text_checks :
    (reverse_dns (ascii "dev.abra.workspace")
      && (not (reverse_dns (ascii "dev..abra"))
          && (is_relative (ascii "src/main")
              && (not (is_relative (ascii "src/../main"))
                  && (is_absolute_uri (ascii "https://a") && not (is_absolute_uri (ascii ":a")))))))
    ≡ true
unfolding reverse_dns is_relative is_absolute_uri
text_checks = refl
