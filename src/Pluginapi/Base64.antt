-- ===== src/Pluginapi/Base64.antt =====
-- encoding/base64 as the file snapshots use it: the standard alphabet with padding.
pub mod Decoding
use hardline.Base.{
  ℕ, ◌+◌, ◌-◌, ◌*◌, ◌/◌, ◌%◌, Text, Bool, true, false, not, ◌&&◌, ◌||◌, Option, none, some, List,
  [], ◌∷◌, ◌++◌, if◌then◌else◌, leb, ltb, nat_eq, select,
}

-- The character of a value below 64, and the value of a character.
unfoldable pub encode_char : ℕ → ℕ
encode_char v =
    if ltb v 26
    then b'A' + v
    else if ltb v 52
    then b'a' + (v - 26)
    else if ltb v 62
    then b'0' + (v - 52)
    else if nat_eq v 62
    then b'+'
    else b'/'

unfoldable pub decode_char : ℕ → Option ℕ
decode_char c =
    if leb b'A' c && leb c b'Z'
    then some (c - b'A')
    else if leb b'a' c && leb c b'z'
    then some (c - b'a' + 26)
    else if leb b'0' c && leb c b'9'
    then some (c - b'0' + 52)
    else if nat_eq c b'+'
    then some 62
    else if nat_eq c b'/'
    then some 63
    else none

unfoldable pub encode_to_string : Text → Text
encode_to_string [] = []
encode_to_string (a ∷ []) = encode_char (a / 4) ∷ (encode_char (a % 4 * 16) ∷ (b'=' ∷ (b'=' ∷ [])))
encode_to_string (a ∷ (b ∷ [])) =
    encode_char (a / 4)
    ∷ (encode_char (a % 4 * 16 + b / 16) ∷ (encode_char (b % 16 * 4) ∷ (b'=' ∷ [])))
encode_to_string (a ∷ (b ∷ (c ∷ s))) =
    encode_char (a / 4)
    ∷ (encode_char (a % 4 * 16 + b / 16)
        ∷ (encode_char (b % 16 * 4 + c / 64) ∷ (encode_char (c % 64) ∷ encode_to_string s)))

abbrev pub first_byte : ℕ → ℕ → ℕ
first_byte v w = v * 4 + w / 16

abbrev pub second_byte : ℕ → ℕ → ℕ
second_byte w x = w % 16 * 16 + x / 4

abbrev pub third_byte : ℕ → ℕ → ℕ
third_byte x y = x % 4 * 64 + y

abbrev pub triple : ℕ → ℕ → ℕ → ℕ → Text → Text
triple v w x y s = first_byte v w ∷ (second_byte w x ∷ (third_byte x y ∷ s))

-- A quantum of four characters, with the rest decoded; padding ends the text.
abbrev pub quantum : Option ℕ → Option ℕ → ℕ → ℕ → Text → Option Text → Option Text
quantum none w c d behind rest = none
quantum (some v) none c d behind rest = none
quantum (some v) (some w) c d behind rest =
    if nat_eq c b'='
    then (elim behind [
      | [] ↦ if nat_eq d b'=' then some (first_byte v w ∷ []) else none
      | e ∷ es ↦ none
    ])
    else (elim (decode_char c) [
      | none ↦ none
      | some x ↦
          if nat_eq d b'='
          then (elim behind [ [] ↦ some (first_byte v w ∷ (second_byte w x ∷ [])) | e ∷ es ↦ none ])
          else (elim (decode_char d) [
            | none ↦ none
            | some y ↦ (elim rest [ none ↦ none | some s ↦ some (triple v w x y s) ])
          ])
    ])

unfoldable pub decode_quanta : Text → Option Text
unfolding decode_char
decode_quanta [] = some []
decode_quanta (a ∷ []) = none
decode_quanta (a ∷ (b ∷ [])) = none
decode_quanta (a ∷ (b ∷ (c ∷ []))) = none
decode_quanta (a ∷ (b ∷ (c ∷ (d ∷ s)))) =
    quantum (decode_char a) (decode_char b) c d s (decode_quanta s)

-- DecodeString skips the line breaks.
unfoldable pub decode_string : Text → Option Text
decode_string s = decode_quanta (select (λ c. not (nat_eq c 10 || nat_eq c 13)) s)
