-- ===== src/Plugins/Packages/Since.antt =====
-- internals/plugins/packages/ops.go: the duration of a mode such as `if_2w_since_last`.
use hardline.Base.{
  ℕ, zero, suc, ◌+◌, ◌-◌, ◌*◌, ◌%◌, ◌^◌, ◌<◌, ◌≤◌, Text, codes, ==_refl, ◌≡◌, refl, sym, subst, ap,
  ◌∙◌, ◌⊎◌, inl, inr, Bool, true, false, not, ◌||◌, some, [], ◌∷◌, ◌++◌, ok, err, if◌then◌else◌,
  length, length-append, ltb, ℤ, pos, atoi, has_prefix, has_suffix, arith, Bool-cases,
}
use hardline.Plugins.Packages.Ops.{
  missing_value, bad_format, int64, unit_length, counted, take, last_byte, trim_suffix, trim_prefix,
  since_inner, since_suffix, parse_since_duration,
}

-- The mode with a count and the byte of a unit.
abbrev pub since_mode : Text → ℕ → Text
since_mode count unit = codes "if_" ++ ((count ++ (unit ∷ [])) ++ codes "_since_last")

-- The unit is an hour, a day or a week, of so many nanoseconds.
abbrev pub IsUnit : ℕ → ℕ → Type 0
IsUnit unit l =
    ((unit ≡ b'h') × (l ≡ 3600000000000))
    ⊎ (((unit ≡ b'd') × (l ≡ 86400000000000)) ⊎ ((unit ≡ b'w') × (l ≡ 604800000000000)))

unit_length-IsUnit : (unit l : ℕ) → IsUnit unit l → unit_length unit ≡ some l
unit_length-IsUnit unit l (inl (u, e)) = rw (u, e) refl
unit_length-IsUnit unit l (inr (inl (u, e))) = rw (u, e) refl
unit_length-IsUnit unit l (inr (inr (u, e))) = rw (u, e) refl

int64-exact : (n : ℕ) → n < 2 ^ 63 → int64 n ≡ pos n
unfolding int64
int64-exact n h = let same : n % 2 ^ 64 ≡ n = omega arith in rw same (ground arith)

has_suffix_self : (s : Text) → has_suffix s s ≡ true
unfolding has_suffix
has_suffix_self [] = refl
has_suffix_self (c ∷ s) = rw (==_refl (c ∷ s)) refl

has_suffix-append : (s suffix : Text) → has_suffix (s ++ suffix) suffix ≡ true
unfolding has_suffix
has_suffix-append [] suffix = has_suffix_self suffix
has_suffix-append (c ∷ s) suffix = ground (arith, has_suffix-append s suffix)

take-append : (s t : Text) (n : ℕ) → n ≡ length s → take n (s ++ t) ≡ s
take-append [] t n e = rw e refl
take-append (c ∷ s) t n e = rw e (ap (λ (x : Text). c ∷ x) (take-append s t (length s) refl))

trim_suffix-append : (s suffix : Text) → trim_suffix (s ++ suffix) suffix ≡ s
trim_suffix-append s suffix = rw (has_suffix-append s suffix) (
    take-append s suffix (length (s ++ suffix) - length suffix)
      (omega (arith, length-append s suffix)))

last_byte-snoc : (s : Text) (u : ℕ) → last_byte (s ++ (u ∷ [])) ≡ u
last_byte-snoc [] u = refl
last_byte-snoc (c ∷ []) u = refl
last_byte-snoc (c ∷ (d ∷ s)) u = last_byte-snoc (d ∷ s) u

has_prefix-nil : (s : Text) → has_prefix s [] ≡ true
unfolding has_prefix
has_prefix-nil [] = refl
has_prefix-nil (c ∷ s) = refl

trim_prefix-if : (s : Text) → trim_prefix (codes "if_" ++ s) (codes "if_") ≡ s
unfolding has_prefix
trim_prefix-if [] = refl
trim_prefix-if (c ∷ s) = refl

since_inner-since_mode :
    (count : Text) (unit : ℕ) → since_inner (since_mode count unit) ≡ count ++ (unit ∷ [])
since_inner-since_mode count unit =
    ap (λ (x : Text). trim_prefix x (codes "if_"))
      (trim_suffix-append (codes "if_" ++ (count ++ (unit ∷ []))) since_suffix)
    ∙ trim_prefix-if (count ++ (unit ∷ []))

counted-IsUnit :
    (s : Text) (n unit l : ℕ)
    → 0 < n
    → IsUnit unit l
    → counted s (some (pos n)) unit ≡ ok (int64 (n * l))
counted-IsUnit s zero unit l h u = absurd (omega (arith, h))
counted-IsUnit s (suc n) unit l h u = rw (unit_length-IsUnit unit l u) refl

-- A product that fits in 63 bits is the number that the `int64` stands for.
abbrev pub Fits : ℕ → Type 0
Fits k = (2 ^ 63 ≤ k) ⊎ (int64 k ≡ pos k)

fits : (k : ℕ) → Fits k
fits k = elim (Bool-cases (ltb k (2 ^ 63))) [
  | inl e ↦ inr (int64-exact k (ground (arith, e)))
  | inr e ↦ inl (ground (arith, e))
]

length-snoc : (s : Text) (u : ℕ) → length (s ++ (u ∷ [])) ≡ length s + 1
length-snoc s u = omega (arith, length-append s (u ∷ []))

-- The tail of the parser: a text `inner` of at least two bytes is a count and a unit.
counted-since :
    (mode count : Text) (n unit l : ℕ)
    → atoi count ≡ some (pos n)
    → 0 < n
    → IsUnit unit l
    → counted mode
        (atoi (take (length (count ++ (unit ∷ [])) - 1) (count ++ (unit ∷ []))))
        (last_byte (count ++ (unit ∷ [])))
      ≡ ok (int64 (n * l))
counted-since mode count n unit l h p u =
    rw
      (
        take-append count (unit ∷ []) (length (count ++ (unit ∷ [])) - 1)
            (omega (arith, length-snoc count unit)),
        last_byte-snoc count unit,
        h,
      )
      (counted-IsUnit mode n unit l p u)

since_mode-format :
    (count : Text) (unit : ℕ)
    → (has_prefix (since_mode count unit) (codes "if_") ≡ true)
      × (has_suffix (since_mode count unit) since_suffix ≡ true)
unfolding has_prefix
since_mode-format count unit = (
  has_prefix-nil ((count ++ (unit ∷ [])) ++ since_suffix),
  has_suffix-append (codes "if_" ++ (count ++ (unit ∷ []))) since_suffix,
)

count_long :
    (count : Text) (unit n : ℕ)
    → atoi count ≡ some (pos n)
    → ltb (length (count ++ (unit ∷ []))) 2 ≡ false
unfolding atoi
count_long [] unit n h = absurd (cc)
count_long (c ∷ count) unit n h = ground (arith, length-snoc (c ∷ count) unit)

both_pass :
    {A : Type 0} (a b : Bool) (x y : A)
    → a ≡ true
    → b ≡ true
    → (if not a || not b then x else y) ≡ y
both_pass a b x y h k = rw (h, k) refl

parse_since_duration-counted :
    (mode inner : Text) (d : ℤ)
    → has_prefix mode (codes "if_") ≡ true
    → has_suffix mode since_suffix ≡ true
    → since_inner mode ≡ inner
    → ltb (length inner) 2 ≡ false
    → counted mode (atoi (take (length inner - 1) inner)) (last_byte inner) ≡ ok d
    → parse_since_duration mode ≡ ok d
unfolding parse_since_duration
parse_since_duration-counted mode inner d prefixed suffixed e long h =
    let body = λ (i : Text).
      if ltb (length i) 2
      then err (missing_value mode)
      else counted mode (atoi (take (length i - 1) i)) (last_byte i) in
    let run : body inner ≡ ok d = rw long h in
    both_pass (has_prefix mode (codes "if_")) (has_suffix mode since_suffix) (err (bad_format mode))
      (body (since_inner mode)) prefixed suffixed
    ∙ subst (λ i. body i ≡ ok d) (sym e) run

-- A mode `if_<count><unit>_since_last`, with a count above zero that `Atoi` reads and the unit h, d or
-- w, is the product of the count and the nanoseconds of an hour, a day or a week, as an `int64`; and
-- that is the product itself unless the product is at least 2 ^ 63.
pub parse_since_duration-since_mode :
    (count : Text) (n unit l : ℕ)
    → atoi count ≡ some (pos n)
    → 0 < n
    → IsUnit unit l
    → (parse_since_duration (since_mode count unit) ≡ ok (int64 (n * l))) × Fits (n * l)
parse_since_duration-since_mode count n unit l h p u =
    let (prefixed, suffixed) = since_mode-format count unit in
    (
      parse_since_duration-counted (since_mode count unit) (count ++ (unit ∷ [])) _ prefixed
          suffixed (since_inner-since_mode count unit) (count_long count unit n h)
          (counted-since (since_mode count unit) count n unit l h p u),
      fits (n * l),
    )
