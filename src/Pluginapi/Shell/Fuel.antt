-- ===== src/Pluginapi/Shell/Fuel.antt =====
-- pkg/pluginapi/helpers.go: the loops of `unquoteShellWord` and `decodeANSIC`, whose fuel is the length
-- of the text.
use hardline.Base.{
  ℕ, zero, suc, ◌+◌, ◌*◌, ◌-◌, ◌≤◌, ◌<◌, Text, ◌≡◌, refl, ap, Bool, true, false, ◌&&◌, Option, none,
  some, [], ◌∷◌, if◌then◌else◌, nat_eq, ltb, length, arith, Bool-cases, Option-cases, inl, inr,
}
use hardline.Pluginapi.Shell.Word.{
  Piece, with_byte, single_quoted, escapable, is_octal, double_quoted, first_piece, prefixed,
  after_piece, after_escape, unquote_pieces, decode_ansi_c, ansi_escape, octal_digits, hex_digits,
  hex_value, simple_escape,
}

-- What a piece leaves of the text is shorter than `n`.
abbrev Below : ℕ → Piece → Type 0
Below n none = Unit
Below n (some (t, r)) = length r < n

with_byte-Below : (c : ℕ) (p : Piece) (n : ℕ) → Below n p → Below n (with_byte c p)
with_byte-Below c none n h = tt
with_byte-Below c (some (t, r)) n h = h

Below-suc : (p : Piece) (n : ℕ) → Below n p → Below (suc n) p
Below-suc none n h = tt
Below-suc (some (t, r)) n h = omega arith

if-Below : (b : Bool) (p q : Piece) (n : ℕ) → Below n p → Below n q → Below n (if b then p else q)
if-Below true p q n h k = h
if-Below false p q n h k = k

single_quoted-Below : (s : Text) → Below (length s) (single_quoted s)
unfolding single_quoted
single_quoted-Below [] = tt
single_quoted-Below (c ∷ s) =
    if-Below (nat_eq c 39) (some ([], s)) (with_byte c (single_quoted s)) (length (c ∷ s))
      (omega arith)
      (with_byte-Below c (single_quoted s) _
        (Below-suc (single_quoted s) (length s) (single_quoted-Below s)))

double_quoted-Below : (s : Text) → Below (length s) (double_quoted s)
unfolding double_quoted
double_quoted-Below [] = tt
double_quoted-Below (c ∷ []) = if-Below (nat_eq c 34) (some ([], [])) none 1 (omega arith) tt
double_quoted-Below (c ∷ (d ∷ s)) =
    if-Below (nat_eq c 34) (some ([], d ∷ s)) _ (length (c ∷ (d ∷ s))) (omega arith) (
      if-Below (nat_eq c 92 && escapable d) (with_byte d (double_quoted s))
        (with_byte c (double_quoted (d ∷ s))) (length (c ∷ (d ∷ s)))
        (with_byte-Below d (double_quoted s) _
          (Below-suc (double_quoted s) _ (Below-suc (double_quoted s) _ (double_quoted-Below s))))
        (with_byte-Below c (double_quoted (d ∷ s)) _
          (Below-suc (double_quoted (d ∷ s)) _ (double_quoted-Below (d ∷ s)))))

octal_digits-shrinks : (n v : ℕ) (s : Text) → length (octal_digits n v s).1 ≤ length s
unfolding octal_digits
octal_digits-shrinks zero v s = omega arith
octal_digits-shrinks (suc n) v [] = omega arith
octal_digits-shrinks (suc n) v (c ∷ s) =
    ground (arith, octal_digits-shrinks n (v * 8 + (c - b'0')) s)

hex_digits-shrinks : (n v : ℕ) (s : Text) → length (hex_digits n v s).1 ≤ length s
unfolding hex_digits
hex_digits-shrinks zero v s = omega arith
hex_digits-shrinks (suc n) v [] = omega arith
hex_digits-shrinks (suc n) v (c ∷ s) = elim (Option-cases (hex_value c)) [
  | inl e ↦ rw (e, length) (omega arith)
  | inr (d, e) ↦ rw (e, length) (omega (arith, hex_digits-shrinks n (v * 16 + d) s))
]

-- An escape leaves no more than what stands behind its first byte.
abbrev Within : ℕ → Option (ℕ × Text) → Type 0
Within n none = Unit
Within n (some (v, r)) = length r ≤ n

if-Within :
    (b : Bool) (p q : Option (ℕ × Text)) (n : ℕ)
    → Within n p
    → Within n q
    → Within n (if b then p else q)
if-Within true p q n h k = h
if-Within false p q n h k = k

octal_first :
    (c : ℕ) (s : Text) → is_octal c ≡ true → length (octal_digits 3 0 (c ∷ s)).1 ≤ length s
unfolding octal_digits
octal_first c s o = let rest = octal_digits-shrinks 2 (0 * 8 + (c - b'0')) s in ground arith

simple_escape-Within :
    (o : Option ℕ) (s : Text) → Within (length s) (elim o [ none ↦ none | some r ↦ some (r, s) ])
simple_escape-Within none s = tt
simple_escape-Within (some r) s = omega arith

ansi_escape-Within : (c : ℕ) (s : Text) → Within (length s) (ansi_escape c s)
unfolding ansi_escape
ansi_escape-Within c s = elim (Bool-cases (is_octal c)) [
  | inl o ↦ rw o (
      if-Within (ltb 255 (octal_digits 3 0 (c ∷ s)).0) none (some (octal_digits 3 0 (c ∷ s)))
        (length s) tt (octal_first c s o))
  | inr o ↦ rw o (
      if-Within (nat_eq c b'x') _ _ (length s)
        (if-Within (nat_eq (length (hex_digits 2 0 s).1) (length s)) none (some (hex_digits 2 0 s))
          (length s) tt (hex_digits-shrinks 2 0 s))
        (simple_escape-Within (simple_escape c) s))
]

if-same :
    {A : Type 0} {q q' : A} (b : Bool) (p : A)
    → q ≡ q'
    → (if b then p else q) ≡ (if b then p else q')
if-same true p e = refl
if-same false p e = e

elim-same :
    {A : Type 0} {p p' q q' : A} (b : Bool)
    → p ≡ p'
    → q ≡ q'
    → (elim b [ false ↦ p | true ↦ q ]) ≡ (elim b [ false ↦ p' | true ↦ q' ])
elim-same true e f = f
elim-same false e f = e

elim-Below :
    (b : Bool) (p q : Piece) (n : ℕ)
    → Below n p
    → Below n q
    → Below n (elim b [ false ↦ p | true ↦ q ])
elim-Below true p q n h k = k
elim-Below false p q n h k = h

after_escape-same :
    (f g : Text → Piece) (o : Option (ℕ × Text)) (n : ℕ)
    → Within n o
    → ((r : Text) → length r ≤ n → f r ≡ g r)
    → after_escape f o ≡ after_escape g o
after_escape-same f g none n h e = refl
after_escape-same f g (some (b, r)) n h e = ap (with_byte b) (e r h)

Below-more : (p : Piece) (m n : ℕ) → m ≤ n → Below m p → Below n p
Below-more none m n le h = tt
Below-more (some (t, r)) m n le h = omega arith

after_escape-Below :
    (f : Text → Piece) (o : Option (ℕ × Text)) (n : ℕ)
    → Within n o
    → ((r : Text) → Below (length r) (f r))
    → Below (suc (suc n)) (after_escape f o)
after_escape-Below f none n h e = tt
after_escape-Below f (some (b, r)) n h e =
    with_byte-Below b (f r) _ (Below-more (f r) (length r) (suc (suc n)) (omega arith) (e r))

after_piece-same :
    (f g : Text → Option Text) (p : Piece) (n : ℕ)
    → Below n p
    → ((r : Text) → length r < n → f r ≡ g r)
    → after_piece f p ≡ after_piece g p
after_piece-same f g none n h e = refl
after_piece-same f g (some (t, r)) n h e = ap (prefixed t) (e r h)

-- A longer fuel changes nothing.
decode_ansi_c-fuel :
    (n m : ℕ) (s : Text) → length s < n → length s < m → decode_ansi_c n s ≡ decode_ansi_c m s
unfolding decode_ansi_c
decode_ansi_c-fuel zero m s h k = absurd (omega arith)
decode_ansi_c-fuel (suc n) zero s h k = absurd (omega arith)
decode_ansi_c-fuel (suc n) (suc m) [] h k = refl
decode_ansi_c-fuel (suc n) (suc m) (c ∷ []) h k = refl
decode_ansi_c-fuel (suc n) (suc m) (c ∷ (d ∷ s)) h k = if-same (nat_eq c 39) (some ([], d ∷ s)) (
    elim-same (nat_eq c 92)
      (ap (with_byte c) (decode_ansi_c-fuel n m (d ∷ s) (omega arith) (omega arith)))
      (after_escape-same (decode_ansi_c n) (decode_ansi_c m) (ansi_escape d s) (length s)
        (ansi_escape-Within d s) (λ r short. decode_ansi_c-fuel n m r (omega arith) (omega arith))))

decode_ansi_c-Below : (n : ℕ) (s : Text) → Below (length s) (decode_ansi_c n s)
unfolding decode_ansi_c
decode_ansi_c-Below zero s = tt
decode_ansi_c-Below (suc n) [] = tt
decode_ansi_c-Below (suc n) (c ∷ []) =
    if-Below (nat_eq c 39) (some ([], [])) none 1 (omega arith) tt
decode_ansi_c-Below (suc n) (c ∷ (d ∷ s)) =
    if-Below (nat_eq c 39) (some ([], d ∷ s)) _ (length (c ∷ (d ∷ s))) (omega arith) (
      elim-Below (nat_eq c 92) _ _ (length (c ∷ (d ∷ s)))
        (with_byte-Below c (decode_ansi_c n (d ∷ s)) _
          (Below-suc (decode_ansi_c n (d ∷ s)) _ (decode_ansi_c-Below n (d ∷ s))))
        (after_escape-Below (decode_ansi_c n) (ansi_escape d s) (length s) (ansi_escape-Within d s)
          (decode_ansi_c-Below n)))

first_piece-Below : (s : Text) → Below (length s) (first_piece s)
unfolding first_piece
first_piece-Below [] = tt
first_piece-Below (c ∷ []) = tt
first_piece-Below (c ∷ (d ∷ s)) =
    if-Below (nat_eq c 39) _ _ (length (c ∷ (d ∷ s)))
      (Below-suc (single_quoted (d ∷ s)) _ (single_quoted-Below (d ∷ s)))
      (if-Below (nat_eq c 34) _ _ _
        (Below-suc (double_quoted (d ∷ s)) _ (double_quoted-Below (d ∷ s)))
        (if-Below (nat_eq c b'$' && nat_eq d 39) _ _ _
          (Below-suc (decode_ansi_c (length s + 1) s) _
            (Below-suc (decode_ansi_c (length s + 1) s) _ (decode_ansi_c-Below (length s + 1) s)))
          (if-Below (nat_eq c 92) (some (d ∷ [], s)) none _ (omega arith) tt)))

-- The loop over the pieces never runs out of the fuel that it is given: more changes nothing.
pub unquote_pieces-fuel :
    (n m : ℕ) (s : Text) → length s ≤ n → length s ≤ m → unquote_pieces n s ≡ unquote_pieces m s
unfolding unquote_pieces
unquote_pieces-fuel n m [] h k = refl
unquote_pieces-fuel zero m (c ∷ s) h k = absurd (omega arith)
unquote_pieces-fuel (suc n) zero (c ∷ s) h k = absurd (omega arith)
unquote_pieces-fuel (suc n) (suc m) (c ∷ s) h k =
    after_piece-same (unquote_pieces n) (unquote_pieces m) (first_piece (c ∷ s)) (length (c ∷ s))
      (first_piece-Below (c ∷ s)) (λ r short. unquote_pieces-fuel n m r (omega arith) (omega arith))
