-- ===== src/Pluginapi/Base64/Decoding.antt =====
-- encoding/base64: decoding what was encoded.
use hardline.Base.{
  ℕ, ◌+◌, ◌*◌, ◌/◌, ◌%◌, ◌<◌, Text, ◌≡◌, refl, ap, ◌∙◌, Bool, true, false, not, ◌&&◌, ◌||◌, Option,
  none, some, [], ◌∷◌, ltb, nat_eq, nat_eq_iff, all, select, arith, all_below, all_below-holds,
}
use hardline.Pluginapi.Base64.{
  encode_char, decode_char, encode_to_string, quantum, decode_quanta, decode_string, triple,
  first_byte, second_byte, third_byte,
}

abbrev is_value : ℕ → Option ℕ → Bool
is_value v none = false
is_value v (some w) = nat_eq w v

is_value-some : (v : ℕ) (o : Option ℕ) → is_value v o ≡ true → o ≡ some v
is_value-some v none h = absurd (cc)
is_value-some v (some w) h = ap (λ (x : ℕ). some x) ((nat_eq_iff w v).0 h)

-- A character of the alphabet: it has its value, and is no padding and no line break.
abbrev spelled : ℕ → Bool
spelled v =
    is_value v (decode_char (encode_char v))
    && (not (nat_eq (encode_char v) b'=')
        && not (nat_eq (encode_char v) 10 || nat_eq (encode_char v) 13))

spelled_values : all_below 64 spelled ≡ true
unfolding all_below encode_char decode_char
spelled_values = refl

decode_char-encode_char :
    (v : ℕ)
    → v < 64
    → (decode_char (encode_char v) ≡ some v)
      × (nat_eq (encode_char v) b'=' ≡ false)
      × (nat_eq (encode_char v) 10 || nat_eq (encode_char v) 13 ≡ false)
decode_char-encode_char v h =
    let holds = all_below-holds 64 spelled v spelled_values h in
    (is_value-some v _ (ground arith), ground arith, ground arith)

abbrev pub is_byte : ℕ → Bool
is_byte c = ltb c 256

quantum_two :
    (v w x c : ℕ) (rest : Option Text)
    → nat_eq c b'=' ≡ false
    → decode_char c ≡ some x
    → quantum (some v) (some w) c b'=' [] rest ≡ some (first_byte v w ∷ (second_byte w x ∷ []))
quantum_two v w x c rest n e = rw (n, e) refl

quantum_three :
    (v w x y c d : ℕ) (behind t : Text)
    → nat_eq c b'=' ≡ false
    → decode_char c ≡ some x
    → nat_eq d b'=' ≡ false
    → decode_char d ≡ some y
    → quantum (some v) (some w) c d behind (some t) ≡ some (triple v w x y t)
quantum_three v w x y c d behind t n e m f = rw (n, e, m, f) refl

-- The bytes of a group, from its four values.
group_bytes :
    (a b c : ℕ) (s : Text)
    → a < 256
    → b < 256
    → c < 256
    → triple (a / 4) (a % 4 * 16 + b / 16) (b % 16 * 4 + c / 64) (c % 64) s ≡ a ∷ (b ∷ (c ∷ s))
group_bytes a b c s ha hb hc =
    let first : first_byte (a / 4) (a % 4 * 16 + b / 16) ≡ a = omega arith in
    let second : second_byte (a % 4 * 16 + b / 16) (b % 16 * 4 + c / 64) ≡ b = omega arith in
    let third : third_byte (b % 16 * 4 + c / 64) (c % 64) ≡ c = omega arith in
    rw (first, second, third) refl

decode_quanta-encode_to_string :
    (s : Text) → all is_byte s ≡ true → decode_quanta (encode_to_string s) ≡ some s
unfolding decode_quanta encode_to_string
decode_quanta-encode_to_string [] h = refl
decode_quanta-encode_to_string (a ∷ []) h =
    let (p, _, _) = decode_char-encode_char (a / 4) (ground arith) in
    let (q, _, _) = decode_char-encode_char (a % 4 * 16) (omega arith) in
    let same : first_byte (a / 4) (a % 4 * 16) ≡ a = omega arith in rw (p, q, same) refl
decode_quanta-encode_to_string (a ∷ (b ∷ [])) h =
    let ha : a < 256 = ground arith in
    let hb : b < 256 = ground arith in
    let (p, _, _) = decode_char-encode_char (a / 4) (omega arith) in
    let (q, _, _) = decode_char-encode_char (a % 4 * 16 + b / 16) (omega arith) in
    let (r, n, _) = decode_char-encode_char (b % 16 * 4) (omega arith) in
    let first : first_byte (a / 4) (a % 4 * 16 + b / 16) ≡ a = omega arith in
    let second : second_byte (a % 4 * 16 + b / 16) (b % 16 * 4) ≡ b = omega arith in
    rw (p, q)
      (quantum_two (a / 4) (a % 4 * 16 + b / 16) (b % 16 * 4) (encode_char (b % 16 * 4)) (some []) n
          r
        ∙ rw (first, second) refl)
decode_quanta-encode_to_string (a ∷ (b ∷ (c ∷ s))) h =
    let ha : a < 256 = ground arith in
    let hb : b < 256 = ground arith in
    let hc : c < 256 = ground arith in
    let (p, _, _) = decode_char-encode_char (a / 4) (omega arith) in
    let (q, _, _) = decode_char-encode_char (a % 4 * 16 + b / 16) (omega arith) in
    let (r, n, _) = decode_char-encode_char (b % 16 * 4 + c / 64) (omega arith) in
    let (t, m, _) = decode_char-encode_char (c % 64) (omega arith) in
    let rest = decode_quanta-encode_to_string s (ground arith) in
    rw (p, q)
      (ap
          (quantum (some (a / 4)) (some (a % 4 * 16 + b / 16)) (encode_char (b % 16 * 4 + c / 64))
            (encode_char (c % 64)) (encode_to_string s))
          rest
        ∙ quantum_three (a / 4) (a % 4 * 16 + b / 16) (b % 16 * 4 + c / 64) (c % 64) _ _
            (encode_to_string s) s n r m t
        ∙ ap (λ (x : Text). some x) (group_bytes a b c s ha hb hc))

abbrev no_break : ℕ → Bool
no_break c = not (nat_eq c 10 || nat_eq c 13)

select-all : (s : Text) → all no_break s ≡ true → select no_break s ≡ s
select-all [] h = refl
select-all (c ∷ s) h =
    let first : no_break c ≡ true = ground arith in rw (first, select-all s (ground arith)) refl

encode_char-no_break : (v : ℕ) → v < 64 → no_break (encode_char v) ≡ true
encode_char-no_break v h = let (_, _, n) = decode_char-encode_char v h in rw n refl

encode_to_string-no_break :
    (s : Text) → all is_byte s ≡ true → all no_break (encode_to_string s) ≡ true
unfolding encode_to_string
encode_to_string-no_break [] h = refl
encode_to_string-no_break (a ∷ []) h =
    let ha : a < 256 = ground arith in
    rw (encode_char-no_break (a / 4) (omega arith), encode_char-no_break (a % 4 * 16) (omega arith))
      refl
encode_to_string-no_break (a ∷ (b ∷ [])) h =
    let ha : a < 256 = ground arith in
    let hb : b < 256 = ground arith in
    rw
      (
        encode_char-no_break (a / 4) (omega arith),
        encode_char-no_break (a % 4 * 16 + b / 16) (omega arith),
        encode_char-no_break (b % 16 * 4) (omega arith),
      )
      refl
encode_to_string-no_break (a ∷ (b ∷ (c ∷ s))) h =
    let ha : a < 256 = ground arith in
    let hb : b < 256 = ground arith in
    let hc : c < 256 = ground arith in
    rw
      (
        encode_char-no_break (a / 4) (omega arith),
        encode_char-no_break (a % 4 * 16 + b / 16) (omega arith),
        encode_char-no_break (b % 16 * 4 + c / 64) (omega arith),
        encode_char-no_break (c % 64) (omega arith),
        encode_to_string-no_break s (ground arith),
      )
      refl

-- A text of bytes is read back from its base64, so a rollback writes the content that was recorded.
pub decode_string-encode_to_string :
    (s : Text) → all is_byte s ≡ true → decode_string (encode_to_string s) ≡ some s
unfolding decode_string
decode_string-encode_to_string s h =
    rw (select-all (encode_to_string s) (encode_to_string-no_break s h))
      (decode_quanta-encode_to_string s h)
