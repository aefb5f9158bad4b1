-- ===== src/Base/Texts.antt =====
-- Go strings as lists of bytes, with what the code uses of the package `strings`. The texts are
-- ASCII: `trim_space` and `to_lower` do for bytes below 128 what Go does.
use Prim.Native.Nat.{ℕ, ◌+◌, ◌/◌, ◌%◌}
use Prim.Native.Char.{code}
use Prim.Native.String.{String}
use mathlib.Core.Path.{◌≡◌, refl}
use mathlib.Core.Logic.{◌↔◌, ◌≢◌}
use mathlib.Core.Bool.{Bool, true, false, ◌&&◌, ◌||◌}
use mathlib.Core.List.{List, [], ◌∷◌, ◌++◌, map}
use native.Mathlib.Omega.{arith}
use hardline.Base.Tests.{leb, nat_eq, if◌then◌else◌}
use hardline.Base.Lists.{is_nil}

abbrev pub Text : Type 0
Text = List ℕ

-- The bytes of an ASCII literal.
abbrev pub codes : String → Text
codes String.[] = []
codes (String.◌∷◌ c s) = code c ∷ codes s

infix 50 ◌==◌
unfoldable pub ◌==◌ : Text → Text → Bool
[] == [] = true
[] == (y ∷ ys) = false
(x ∷ xs) == [] = false
(x ∷ xs) == (y ∷ ys) = nat_eq x y && (xs == ys)

pub ==_iff : (a b : Text) → ((a == b) ≡ true) ↔ (a ≡ b)
unfolding ◌==◌
==_iff [] [] = (λ _. refl, λ _. refl)
==_iff [] (y ∷ ys) = ground arith
==_iff (x ∷ xs) [] = ground arith
==_iff (x ∷ xs) (y ∷ ys) = ground (arith, ==_iff xs ys)

pub ==_refl : (a : Text) → (a == a) ≡ true
==_refl a = (==_iff a a).1 refl

pub ==_false : (a b : Text) → a ≢ b → (a == b) ≡ false
==_false a b h = ground (arith, ==_iff a b)

pub ne_of_== : (a b : Text) → (a == b) ≡ false → a ≢ b
ne_of_== a b h e = ground (arith, ==_iff a b)

unfoldable pub is_space : ℕ → Bool
is_space c = nat_eq c 32 || (leb 9 c && leb c 13)

unfoldable pub trim_left : Text → Text
unfolding is_space
trim_left [] = []
trim_left (c ∷ s) = if is_space c then trim_left s else c ∷ s

unfoldable pub trim_right : Text → Text
unfolding is_space
trim_right [] = []
trim_right (c ∷ s) = let rest = trim_right s in if is_space c && is_nil rest then [] else c ∷ rest

unfoldable pub trim_space : Text → Text
unfolding trim_left trim_right
trim_space s = trim_right (trim_left s)

unfoldable pub lower_byte : ℕ → ℕ
lower_byte c = if leb b'A' c && leb c b'Z' then c + 32 else c

unfoldable pub to_lower : Text → Text
unfolding lower_byte
to_lower s = map lower_byte s

unfoldable pub has_prefix : Text → Text → Bool
has_prefix s [] = true
has_prefix [] (p ∷ ps) = false
has_prefix (c ∷ s) (p ∷ ps) = nat_eq c p && has_prefix s ps

unfoldable pub contains : Text → Text → Bool
unfolding has_prefix
contains [] sub = is_nil sub
contains (c ∷ s) sub = has_prefix (c ∷ s) sub || contains s sub

-- strings.Split at one byte.
unfoldable pub split_cons : ℕ → List Text → List Text
split_cons c [] = (c ∷ []) ∷ []
split_cons c (w ∷ ws) = (c ∷ w) ∷ ws

unfoldable pub split : ℕ → Text → List Text
unfolding split_cons
split sep [] = [] ∷ []
split sep (c ∷ s) = let rest = split sep s in if nat_eq c sep then [] ∷ rest else split_cons c rest

-- strings.HasSuffix.
unfoldable pub has_suffix : Text → Text → Bool
unfolding ◌==◌
has_suffix [] suffix = is_nil suffix
has_suffix (c ∷ s) suffix = (c ∷ s) == suffix || has_suffix s suffix

-- `s > t` of Go strings.
unfoldable pub text_gt : Text → Text → Bool
text_gt [] t = false
text_gt (c ∷ s) [] = true
text_gt (c ∷ s) (d ∷ t) = if nat_eq c d then text_gt s t else leb d c

hex_digit : ℕ → ℕ
hex_digit n = if leb n 9 then b'0' + n else 87 + n

-- The letters of the escapes of the bytes 7 to 13.
escape_letter : ℕ → ℕ
escape_letter c =
    if nat_eq c 7
    then b'a'
    else if nat_eq c 8
    then b'b'
    else if nat_eq c 9
    then b't'
    else if nat_eq c 10
    then b'n'
    else if nat_eq c 11
    then b'v'
    else if nat_eq c 12
    then b'f'
    else b'r'

escaped_byte : ℕ → Text
unfolding hex_digit escape_letter
escaped_byte c =
    if nat_eq c 34 || nat_eq c 92
    then 92 ∷ (c ∷ [])
    else if leb 32 c && leb c 126
    then c ∷ []
    else if leb 7 c && leb c 13
    then 92 ∷ (escape_letter c ∷ [])
    else 92 ∷ (b'x' ∷ (hex_digit (c / 16) ∷ (hex_digit (c % 16) ∷ [])))

escaped_bytes : Text → Text
unfolding escaped_byte
escaped_bytes [] = []
escaped_bytes (c ∷ s) = escaped_byte c ++ escaped_bytes s

-- strconv.Quote, and `%q` of fmt.
unfoldable pub quoted : Text → Text
unfolding escaped_bytes
quoted s = 34 ∷ (escaped_bytes s ++ (34 ∷ []))

-- strings.Join.
unfoldable pub join : List Text → Text → Text
join [] sep = []
join (t ∷ []) sep = t
join (t ∷ (u ∷ rest)) sep = t ++ (sep ++ join (u ∷ rest) sep)

-- strings.Fields: the words between spaces.
add_word : Text → List Text → List Text
add_word word l = if is_nil word then l else word ∷ l

fields_from : Text → Text → List Text
unfolding is_space add_word
fields_from word [] = add_word word []
fields_from word (c ∷ s) = elim (is_space c) [
  | true ↦ add_word word (fields_from [] s)
  | false ↦ fields_from (word ++ (c ∷ [])) s
]

unfoldable pub fields : Text → List Text
unfolding fields_from
fields s = fields_from [] s

pub ruleset texts = (arith, ==_iff)
