-- ===== src/Pluginapi/Shell/Unquoting.antt =====
-- pkg/pluginapi/helpers.go: `unquoteShellWord` after `ShellArg`.
use hardline.Base.{
  ℕ, zero, suc, ◌+◌, ◌<◌, Text, ◌≡◌, refl, ap, subst, ◌∙◌, sym, false, Option, none, some, [], ◌∷◌,
  ◌++◌, nat_eq, nat_eq_iff, length, length-append, arith, Bool-cases, Option-cases, inl, inr,
}
use hardline.Pluginapi.Shell.{escape_quotes, shell_arg}
use hardline.Pluginapi.Shell.Word.{
  Piece, with_byte, single_quoted, double_quoted, first_piece, prefixed, after_piece,
  unquote_pieces, unquote_shell_word,
}

single_quoted-byte :
    (c : ℕ) (s : Text) → nat_eq c 39 ≡ false → single_quoted (c ∷ s) ≡ with_byte c (single_quoted s)
unfolding single_quoted
single_quoted-byte c s h = rw h refl

after_piece-with_byte :
    (next : Text → Option Text) (c : ℕ) (p : Piece)
    → after_piece next (with_byte c p) ≡ prefixed (c ∷ []) (after_piece next p)
after_piece-with_byte next c none = refl
after_piece-with_byte next c (some (t, rest)) = elim (Option-cases (next rest)) [
  | inl e ↦ rw e refl
  | inr (u, e) ↦ rw e refl
]

empty_quotes : (n : ℕ) → unquote_pieces (suc n) (39 ∷ (39 ∷ [])) ≡ some []
unfolding unquote_pieces first_piece single_quoted
empty_quotes n = refl

-- A byte that is no quote goes before what the rest of the word gives.
unquote-byte :
    (n c : ℕ) (s : Text) (d : ℕ)
    → nat_eq c 39 ≡ false
    → unquote_pieces (suc n) (39 ∷ (c ∷ (d ∷ s)))
      ≡ prefixed (c ∷ []) (unquote_pieces (suc n) (39 ∷ (d ∷ s)))
unfolding unquote_pieces first_piece
unquote-byte n c s d h =
    let step : single_quoted (c ∷ (d ∷ s)) ≡ with_byte c (single_quoted (d ∷ s)) =
      single_quoted-byte c (d ∷ s) h in
    ap (after_piece (unquote_pieces n)) step
    ∙ after_piece-with_byte (unquote_pieces n) c (single_quoted (d ∷ s))

prefixed_nil : (o : Option Text) → prefixed [] o ≡ o
prefixed_nil none = refl
prefixed_nil (some t) = refl

quoted_quote :
    (n : ℕ) (s : Text)
    → unquote_pieces (suc (suc n)) (39 ∷ (39 ∷ (34 ∷ (39 ∷ (34 ∷ (39 ∷ s))))))
      ≡ prefixed (39 ∷ []) (unquote_pieces n (39 ∷ s))
unfolding unquote_pieces first_piece single_quoted double_quoted
quoted_quote n s = prefixed_nil (prefixed (39 ∷ []) (unquote_pieces n (39 ∷ s)))

escape_quotes-byte :
    (c : ℕ) (s : Text) → nat_eq c 39 ≡ false → escape_quotes (c ∷ s) ≡ c ∷ escape_quotes s
unfolding escape_quotes
escape_quotes-byte c s h = rw h refl

snoc-cons : (l : Text) (x : ℕ) → (d : ℕ) × (r : Text) × (l ++ (x ∷ []) ≡ d ∷ r)
snoc-cons [] x = (x, [], refl)
snoc-cons (y ∷ l) x = (y, l ++ (x ∷ []), refl)

-- The step of the induction at a byte that is no quote, and at a quote.
unquote-escaped_byte :
    (c : ℕ) (s : Text) (n : ℕ)
    → nat_eq c 39 ≡ false
    → unquote_pieces (suc n) (39 ∷ (escape_quotes s ++ (39 ∷ []))) ≡ some s
    → unquote_pieces (suc n) (39 ∷ (c ∷ (escape_quotes s ++ (39 ∷ [])))) ≡ some (c ∷ s)
unquote-escaped_byte c s n e ih =
    let (d, r, shape) = snoc-cons (escape_quotes s) 39 in
    rw shape (unquote-byte n c r d e ∙ ap (prefixed (c ∷ [])) (rw shape at ih))

unquote-escaped_quote :
    (s : Text) (n : ℕ)
    → ((m : ℕ)
        → length (escape_quotes s) < m
        → unquote_pieces m (39 ∷ (escape_quotes s ++ (39 ∷ []))) ≡ some s)
    → length (escape_quotes s) + 5 < n
    → unquote_pieces n (39 ∷ (escape_quotes (39 ∷ s) ++ (39 ∷ []))) ≡ some (39 ∷ s)
unfolding escape_quotes
unquote-escaped_quote s zero ih h = absurd (omega arith)
unquote-escaped_quote s (suc zero) ih h = absurd (omega arith)
unquote-escaped_quote s (suc (suc n)) ih h =
    quoted_quote n (escape_quotes s ++ (39 ∷ [])) ∙ ap (prefixed (39 ∷ [])) (ih n (omega arith))

quote_length :
    (s : Text) (n : ℕ) → length (escape_quotes (39 ∷ s)) < n → length (escape_quotes s) + 5 < n
unfolding escape_quotes
quote_length s n h = omega arith

-- The escaped text with its quotes, from the opening quote on.
unquote-escape_quotes :
    (s : Text) (n : ℕ)
    → length (escape_quotes s) < n
    → unquote_pieces n (39 ∷ (escape_quotes s ++ (39 ∷ []))) ≡ some s
unquote-escape_quotes s zero h = absurd (omega arith)
unquote-escape_quotes [] (suc n) h = unfold escape_quotes in empty_quotes n
unquote-escape_quotes (c ∷ s) (suc n) h = elim (Bool-cases (nat_eq c 39)) [
  | inl e ↦
      let quote = (nat_eq_iff c 39).0 e in
      subst
        (λ x.
          length (escape_quotes (x ∷ s)) < suc n
          → unquote_pieces (suc n) (39 ∷ (escape_quotes (x ∷ s) ++ (39 ∷ []))) ≡ some (x ∷ s))
        (sym quote)
        (λ k.
          unquote-escaped_quote s (suc n) (λ m. unquote-escape_quotes s m)
            (quote_length s (suc n) k))
        h
  | inr e ↦
      let shape = escape_quotes-byte c s e in
      rw shape (
        unquote-escaped_byte c s n e
          (unquote-escape_quotes s (suc n) (omega (arith, ap length shape))))
]

-- Quoting a text for the shell and decoding the word gives the text back, whatever its bytes are.
pub unquote_shell_word-shell_arg : (s : Text) → unquote_shell_word (shell_arg s) ≡ some s
unfolding unquote_shell_word shell_arg
unquote_shell_word-shell_arg s =
    unquote-escape_quotes s (length (shell_arg s))
      (omega (arith, length-append (escape_quotes s) (39 ∷ [])))
