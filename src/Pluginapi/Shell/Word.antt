-- ===== src/Pluginapi/Shell/Word.antt =====
-- pkg/pluginapi/helpers.go: `unquoteShellWord`, `decodeANSIC` and `hexValue`. The two loops run on
-- fuel; the length of the text is enough for both.
use hardline.Base.{
  ℕ, zero, suc, ◌+◌, ◌*◌, ◌-◌, Text, Bool, true, false, ◌&&◌, ◌||◌, Option, none, some, [], ◌∷◌,
  ◌++◌, if◌then◌else◌, is_nil, leb, ltb, nat_eq, length,
}

-- What a piece of a word gives: its bytes, and the text behind it.
abbrev pub Piece : Type 0
Piece = Option (Text × Text)

abbrev pub with_byte : ℕ → Piece → Piece
with_byte b none = none
with_byte b (some (t, rest)) = some (b ∷ t, rest)

-- The body of '...', up to the closing quote.
unfoldable pub single_quoted : Text → Piece
single_quoted [] = none
single_quoted (c ∷ s) =
    let rest = single_quoted s in if nat_eq c 39 then some ([], s) else with_byte c rest

-- The bytes that a backslash escapes inside double quotes.
abbrev pub escapable : ℕ → Bool
escapable c = nat_eq c b'$' || (nat_eq c 96 || (nat_eq c 34 || nat_eq c 92))

-- The body of "...": a backslash before an escapable byte is dropped.
unfoldable pub double_quoted : Text → Piece
double_quoted [] = none
double_quoted (c ∷ []) = if nat_eq c 34 then some ([], []) else none
double_quoted (c ∷ (d ∷ s)) =
    let rest = double_quoted (d ∷ s) in
    let behind = double_quoted s in
    if nat_eq c 34
    then some ([], d ∷ s)
    else if nat_eq c 92 && escapable d
    then with_byte d behind
    else with_byte c rest

unfoldable pub hex_value : ℕ → Option ℕ
hex_value c =
    if leb b'0' c && leb c b'9'
    then some (c - b'0')
    else if leb b'a' c && leb c b'f'
    then some (c - b'a' + 10)
    else if leb b'A' c && leb c b'F'
    then some (c - b'A' + 10)
    else none

abbrev pub is_octal : ℕ → Bool
is_octal c = leb b'0' c && leb c b'7'

-- Up to `n` octal digits behind those read so far: the value, and the text behind them.
unfoldable pub octal_digits : ℕ → ℕ → Text → ℕ × Text
octal_digits zero v s = (v, s)
octal_digits (suc n) v [] = (v, [])
octal_digits (suc n) v (c ∷ s) =
    let more = octal_digits n (v * 8 + (c - b'0')) s in if is_octal c then more else (v, c ∷ s)

unfoldable pub hex_digits : ℕ → ℕ → Text → ℕ × Text
hex_digits zero v s = (v, s)
hex_digits (suc n) v [] = (v, [])
hex_digits (suc n) v (c ∷ s) = elim (hex_value c) [
  | none ↦ (v, c ∷ s)
  | some d ↦ hex_digits n (v * 16 + d) s
]

-- The table `simple`.
unfoldable pub simple_escape : ℕ → Option ℕ
simple_escape c =
    if nat_eq c b'a'
    then some 7
    else if nat_eq c b'b'
    then some 8
    else if nat_eq c b'f'
    then some 12
    else if nat_eq c b'n'
    then some 10
    else if nat_eq c b'r'
    then some 13
    else if nat_eq c b't'
    then some 9
    else if nat_eq c b'v'
    then some 11
    else if nat_eq c b'e'
    then some 27
    else if nat_eq c 92 || (nat_eq c 39 || (nat_eq c 34 || nat_eq c b'?'))
    then some c
    else none

-- One escape of $'...', from the byte behind the backslash: its value, and the text behind it.
unfoldable pub ansi_escape : ℕ → Text → Option (ℕ × Text)
ansi_escape c s =
    if is_octal c
    then (let (v, rest) = octal_digits 3 0 (c ∷ s) in if ltb 255 v then none else some (v, rest))
    else if nat_eq c b'x'
    then (let (v, rest) = hex_digits 2 0 s in
        if nat_eq (length rest) (length s) then none else some (v, rest))
    else (elim (simple_escape c) [ none ↦ none | some r ↦ some (r, s) ])

-- What follows an escape, with the loop over the rest as `next`.
abbrev pub after_escape : (Text → Piece) → Option (ℕ × Text) → Piece
after_escape next none = none
after_escape next (some (b, rest)) = with_byte b (next rest)

-- decodeANSIC
unfoldable pub decode_ansi_c : ℕ → Text → Piece
decode_ansi_c zero s = none
decode_ansi_c (suc n) [] = none
decode_ansi_c (suc n) (c ∷ []) = if nat_eq c 39 then some ([], []) else none
decode_ansi_c (suc n) (c ∷ (d ∷ s)) = if nat_eq c 39 then some ([], d ∷ s) else elim (nat_eq c 92) [
  | false ↦ with_byte c (decode_ansi_c n (d ∷ s))
  | true ↦ after_escape (decode_ansi_c n) (ansi_escape d s)
]

-- The first piece of a word that is not empty.
unfoldable pub first_piece : Text → Piece
first_piece [] = none
first_piece (c ∷ []) = none
first_piece (c ∷ (d ∷ s)) =
    if nat_eq c 39
    then single_quoted (d ∷ s)
    else if nat_eq c 34
    then double_quoted (d ∷ s)
    else if nat_eq c b'$' && nat_eq d 39
    then decode_ansi_c (length s + 1) s
    else if nat_eq c 92
    then some (d ∷ [], s)
    else none

abbrev pub prefixed : Text → Option Text → Option Text
prefixed t none = none
prefixed t (some u) = some (t ++ u)

-- What follows a piece, with the loop over the rest as `next`.
abbrev pub after_piece : (Text → Option Text) → Piece → Option Text
after_piece next none = none
after_piece next (some (t, rest)) = prefixed t (next rest)

-- The loop over the pieces.
unfoldable pub unquote_pieces : ℕ → Text → Option Text
unquote_pieces n [] = some []
unquote_pieces zero (c ∷ s) = none
unquote_pieces (suc n) (c ∷ s) = after_piece (unquote_pieces n) (first_piece (c ∷ s))

unfoldable pub unquote_shell_word : Text → Option Text
unquote_shell_word s = if is_nil s then none else unquote_pieces (length s) s
