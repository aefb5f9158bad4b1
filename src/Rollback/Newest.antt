-- ===== src/Rollback/Newest.antt =====
-- Which journal of the target `LoadRemoteLast` reads: the greatest name that looks like a journal's.
use hardline.Base.{
  ℕ, zero, suc, codes, ◌==◌, ◌++◌, nat_eq, is_digit, fun_ext, ◌⊎◌, Text, ◌≡◌, refl, subst, sym,
  Bool, true, false, not, ◌&&◌, ◌||◌, List, [], ◌∷◌, all, text_gt, trim_space, arith, Bool-cases,
  inl, inr,
}
use hardline.Rollback.Target.{digits_then, byte_then, is_journal_file_name, newest_name}

text_gt_irrefl : (s : Text) → text_gt s s ≡ false
unfolding text_gt
text_gt_irrefl [] = refl
text_gt_irrefl (c ∷ s) = ground (arith, text_gt_irrefl s)

-- `t` is no greater than `s`, nor `s` than `r`.
text_gt-through : (r s t : Text) → text_gt s r ≡ false → text_gt t s ≡ false → text_gt t r ≡ false
unfolding text_gt
text_gt-through r s [] h k = refl
text_gt-through [] [] (d ∷ t) h k = absurd (cc)
text_gt-through (b ∷ r) [] (d ∷ t) h k = absurd (cc)
text_gt-through [] (c ∷ s) (d ∷ t) h k = absurd (cc)
text_gt-through (b ∷ r) (c ∷ s) (d ∷ t) h k = ground (arith, text_gt-through r s t)

text_gt_asym : (s t : Text) → text_gt s t ≡ true → text_gt t s ≡ false
unfolding text_gt
text_gt_asym [] t h = absurd (cc)
text_gt_asym (c ∷ s) [] h = refl
text_gt_asym (c ∷ s) (d ∷ t) h = ground (arith, text_gt_asym s t)

-- One place of a name: any digit, or one byte.
pub data Place : Type 0 where
  digit : Place
  exactly : ℕ → Place

abbrev pub fits_place : Place → ℕ → Bool
fits_place digit c = is_digit c
fits_place (exactly b) c = nat_eq c b

abbrev pub spelled : List Place → Text → Bool
spelled [] [] = true
spelled [] (c ∷ s) = false
spelled (p ∷ places) [] = false
spelled (p ∷ places) (c ∷ s) = fits_place p c && spelled places s

abbrev pub digits_places : ℕ → List Place
digits_places zero = []
digits_places (suc n) = digit ∷ digits_places n

abbrev pub literal : Text → List Place
literal [] = []
literal (c ∷ s) = exactly c ∷ literal s

-- A date of eight digits, T, a time of six, a dot, nanoseconds of nine, Z.json.
abbrev nanoseconds : List Place
nanoseconds = digits_places 9 ++ literal (codes "Z.json")

abbrev time_of_day : List Place
time_of_day = digits_places 6 ++ (exactly b'.' ∷ nanoseconds)

abbrev pub journal_name : List Place
journal_name = digits_places 8 ++ (exactly b'T' ∷ time_of_day)

literal-spelled : (t s : Text) → (s == t) ≡ spelled (literal t) s
unfolding ◌==◌
literal-spelled [] [] = refl
literal-spelled [] (c ∷ s) = refl
literal-spelled (b ∷ t) [] = refl
literal-spelled (b ∷ t) (c ∷ s) = rw (literal-spelled t s) refl

digits_then-spelled :
    (n : ℕ) (rest : Text → Bool) (places : List Place)
    → ((s : Text) → rest s ≡ spelled places s)
    → (s : Text) → digits_then n rest s ≡ spelled (digits_places n ++ places) s
unfolding digits_then
digits_then-spelled zero rest places h s = h s
digits_then-spelled (suc n) rest places h [] = refl
digits_then-spelled (suc n) rest places h (c ∷ s) = rw (digits_then-spelled n rest places h s) refl

byte_then-spelled :
    (b : ℕ) (rest : Text → Bool) (places : List Place)
    → ((s : Text) → rest s ≡ spelled places s)
    → (s : Text) → byte_then b rest s ≡ spelled (exactly b ∷ places) s
unfolding byte_then
byte_then-spelled b rest places h [] = refl
byte_then-spelled b rest places h (c ∷ s) = rw (h s) refl

is_journal_file_name-spelled : (s : Text) → is_journal_file_name s ≡ spelled journal_name s
unfolding is_journal_file_name
is_journal_file_name-spelled = digits_then-spelled 8 _ (exactly b'T' ∷ time_of_day) (
    byte_then-spelled b'T' _ time_of_day (
      digits_then-spelled 6 _ (exactly b'.' ∷ nanoseconds) (
        byte_then-spelled b'.' _ nanoseconds (
          digits_then-spelled 9 (λ t. t == codes "Z.json") (literal (codes "Z.json"))
            (literal-spelled (codes "Z.json"))))))

-- No line with such a name is greater.
abbrev pub is_newest : (Text → Bool) → Text → List Text → Bool
is_newest named best lines =
    all (λ l. not (named (trim_space l)) || not (text_gt (trim_space l) best)) lines

newest_name-above :
    (best : Text) (lines : List Text) → text_gt best (newest_name best lines) ≡ false
unfolding newest_name
newest_name-above best [] = text_gt_irrefl best
newest_name-above best (l ∷ rest) =
    elim (Bool-cases (is_journal_file_name (trim_space l) && text_gt (trim_space l) best)) [
      | inr e ↦ rw e (newest_name-above best rest)
      | inl e ↦ rw e (
          text_gt-through (newest_name (trim_space l) rest) (trim_space l) best
            (newest_name-above (trim_space l) rest)
            (text_gt_asym (trim_space l) best (ground arith)))
    ]

is_newest-cons_or :
    (n l : Text) (rest : List Text)
    → not (is_journal_file_name (trim_space l)) || not (text_gt (trim_space l) n) ≡ true
    → is_newest is_journal_file_name n rest ≡ true
    → is_newest is_journal_file_name n (l ∷ rest) ≡ true
is_newest-cons_or n l rest h k = rw (h, k) refl

is_newest-cons :
    (n l : Text) (rest : List Text)
    → text_gt (trim_space l) n ≡ false
    → is_newest is_journal_file_name n rest ≡ true
    → is_newest is_journal_file_name n (l ∷ rest) ≡ true
is_newest-cons n l rest h k = is_newest-cons_or n l rest (ground arith) k

-- Some line is `n` with spaces around it.
abbrev pub IsListed : Text → List Text → Type 0
IsListed n [] = ⊥
IsListed n (l ∷ rest) = (trim_space l ≡ n) ⊎ IsListed n rest

-- `n` is a line of the listing and such a name.
abbrev pub IsListedJournal : (Text → Bool) → Text → List Text → Type 0
IsListedJournal named n lines = IsListed n lines × (named n ≡ true)

newest_name-IsListedJournal :
    (best : Text) (lines : List Text)
    → (newest_name best lines ≡ best)
      ⊎ IsListedJournal is_journal_file_name (newest_name best lines) lines
unfolding newest_name
newest_name-IsListedJournal best [] = inl refl
newest_name-IsListedJournal best (l ∷ rest) =
    elim (Bool-cases (is_journal_file_name (trim_space l) && text_gt (trim_space l) best)) [
      | inr e ↦
          let step : newest_name best (l ∷ rest) ≡ newest_name best rest = rw e refl in
          subst (λ n. (n ≡ best) ⊎ IsListedJournal is_journal_file_name n (l ∷ rest)) (sym step)
            (elim (newest_name-IsListedJournal best rest) [
              | inl same ↦ inl same
              | inr (listed, named) ↦ inr (inr listed, named)
            ])
      | inl e ↦
          let step : newest_name best (l ∷ rest) ≡ newest_name (trim_space l) rest = rw e refl in
          subst (λ n. (n ≡ best) ⊎ IsListedJournal is_journal_file_name n (l ∷ rest)) (sym step)
            (elim (newest_name-IsListedJournal (trim_space l) rest) [
              | inl same ↦ inr (inl (sym same), rw same (ground arith))
              | inr (listed, named) ↦ inr (inr listed, named)
            ])
    ]

newest_name-is_newest :
    (best : Text) (lines : List Text)
    → is_newest is_journal_file_name (newest_name best lines) lines ≡ true
unfolding newest_name
newest_name-is_newest best [] = refl
newest_name-is_newest best (l ∷ rest) =
    elim (Bool-cases (is_journal_file_name (trim_space l) && text_gt (trim_space l) best)) [
      | inl e ↦
          let step : newest_name best (l ∷ rest) ≡ newest_name (trim_space l) rest = rw e refl in
          subst (λ n. is_newest is_journal_file_name n (l ∷ rest) ≡ true) (sym step)
            (is_newest-cons (newest_name (trim_space l) rest) l rest
              (newest_name-above (trim_space l) rest) (newest_name-is_newest (trim_space l) rest))
      | inr e ↦
          let step : newest_name best (l ∷ rest) ≡ newest_name best rest = rw e refl in
          let through =
            text_gt-through (newest_name best rest) best (trim_space l)
              (newest_name-above best rest) in
          let ahead = newest_name-is_newest best rest in
          subst (λ n. is_newest is_journal_file_name n (l ∷ rest) ≡ true) (sym step)
            (is_newest-cons_or (newest_name best rest) l rest (ground (arith, through)) ahead)
    ]

-- The name that `LoadRemoteLast` keeps of a directory listing, starting from none, is no smaller than
-- any line that, without the spaces around it, is spelled like `20240102T030405.000000001Z.json`, with
-- any digits; and it is none, or it is itself such a line and spelled like that.
pub newest_name-newest :
    (lines : List Text)
    → (is_newest (spelled journal_name) (newest_name [] lines) lines ≡ true)
      × ((newest_name [] lines ≡ [])
          ⊎ IsListedJournal (spelled journal_name) (newest_name [] lines) lines)
newest_name-newest lines =
    subst
      (λ (named : Text → Bool).
        (is_newest named (newest_name [] lines) lines ≡ true)
        × ((newest_name [] lines ≡ []) ⊎ IsListedJournal named (newest_name [] lines) lines))
      (fun_ext is_journal_file_name-spelled)
      (newest_name-is_newest [] lines, newest_name-IsListedJournal [] lines)
