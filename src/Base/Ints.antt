-- ===== src/Base/Ints.antt =====
-- Go's `int`, with `strconv.Atoi`, and `strings.Cut` at a byte and at a text.
use Prim.Native.Nat.{ℕ, zero, suc, ◌+◌, ◌*◌, ◌-◌, ◌^◌}
use mathlib.Core.Bool.{Bool, true, false, not, ◌||◌, ◌&&◌}
use mathlib.Core.Option.{Option, none, some}
use mathlib.Core.List.{[], ◌∷◌}
use hardline.Base.Tests.{leb, ltb, nat_eq, if◌then◌else◌}
use hardline.Base.Lists.{is_nil, all, length}
use hardline.Base.Texts.{Text, has_prefix}

-- Go's `int`.
pub data ℤ : Type 0 where
  pos negsuc : ℕ → ℤ

abbrev pub is_negative : ℤ → Bool
is_negative (pos n) = false
is_negative (negsuc n) = true

abbrev pub is_digit : ℕ → Bool
is_digit c = leb b'0' c && leb c b'9'

-- The value of a text of digits, behind those read so far.
unfoldable pub digits_value : ℕ → Text → ℕ
digits_value n [] = n
digits_value n (c ∷ s) = digits_value (n * 10 + (c - b'0')) s

abbrev signed : Bool → ℕ → Option ℤ
signed false n = if ltb n (2 ^ 63) then some (pos n) else none
signed true zero = some (pos 0)
signed true (suc n) = if ltb n (2 ^ 63) then some (negsuc n) else none

abbrev digits : Bool → Text → Option ℤ
digits negative s =
    if is_nil s || not (all is_digit s) then none else signed negative (digits_value 0 s)

-- strconv.Atoi
unfoldable pub atoi : Text → Option ℤ
atoi [] = none
atoi (c ∷ s) =
    if nat_eq c b'-'
    then digits true s
    else if nat_eq c b'+'
    then digits false s
    else digits false (c ∷ s)

-- The texts before and behind the first byte `sep`.
unfoldable pub cut : ℕ → Text → Option (Text × Text)
cut sep [] = none
cut sep (c ∷ s) =
    let rest = cut sep s in
    if nat_eq c sep then some ([], s) else elim rest [ none ↦ none | some (a, b) ↦ some (c ∷ a, b) ]

-- The text behind the first `n` bytes.
abbrev pub drop : ℕ → Text → Text
drop zero s = s
drop (suc n) [] = []
drop (suc n) (c ∷ s) = drop n s

-- The texts before and behind the first occurrence of a text that is not empty.
unfoldable pub cut_text : Text → Text → Option (Text × Text)
unfolding has_prefix
cut_text sep [] = none
cut_text sep (c ∷ s) =
    let rest = cut_text sep s in
    if has_prefix (c ∷ s) sep
    then some ([], drop (length sep) (c ∷ s))
    else elim rest [ none ↦ none | some (a, b) ↦ some (c ∷ a, b) ]
