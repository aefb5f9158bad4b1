-- ===== src/Pluginapi/Modes.antt =====
-- pkg/pluginapi/helpers.go: file modes. An `os.FileMode` is its number: the permissions are the low
-- nine bits, and setuid, setgid and sticky are bits 23, 22 and 20.
pub mod Spelling
use hardline.Base.{
  ℕ, zero, suc, ◌+◌, ◌*◌, ◌-◌, ◌/◌, ◌%◌, ◌^◌, Text, Bool, true, false, not, ◌&&◌, ◌||◌, Option,
  none, some, List, [], ◌∷◌, ◌++◌, Result, ok, err, if◌then◌else◌, is_nil, leb, ltb, nat_eq, all,
  trim_space,
}

pub data ModeError : Type 0 where
  no_mode : ModeError
  not_octal out_of_range : Text → ModeError

-- Whether `n & mask` is not zero, for a mask of one bit.
abbrev pub has_bit : ℕ → ℕ → Bool
has_bit n mask = nat_eq (n / mask % 2) 1

abbrev pub bit_if : Bool → ℕ → ℕ
bit_if b n = if b then n else 0

abbrev pub mode_setuid : ℕ
mode_setuid = 2 ^ 23

abbrev pub mode_setgid : ℕ
mode_setgid = 2 ^ 22

abbrev pub mode_sticky : ℕ
mode_sticky = 2 ^ 20

-- FileModeFromOctal. The masks are 04000, 02000 and 01000.
unfoldable pub file_mode_from_octal : ℕ → ℕ
file_mode_from_octal octal =
    octal % 512
    + bit_if (has_bit octal 2048) mode_setuid
    + bit_if (has_bit octal 1024) mode_setgid
    + bit_if (has_bit octal 512) mode_sticky

-- The number that `FormatFileMode` prints.
unfoldable pub octal_from_file_mode : ℕ → ℕ
octal_from_file_mode mode =
    mode % 512
    + bit_if (has_bit mode mode_setuid) 2048
    + bit_if (has_bit mode mode_setgid) 1024
    + bit_if (has_bit mode mode_sticky) 512

-- strconv.FormatUint in base 8. The number of digits of a mode is at most four; the fuel is for any.
unfoldable pub octal_text : ℕ → ℕ → Text → Text
octal_text zero n behind = behind
octal_text (suc fuel) n behind = elim (ltb n 8) [
  | true ↦ (b'0' + n) ∷ behind
  | false ↦ octal_text fuel (n / 8) ((b'0' + n % 8) ∷ behind)
]

unfoldable pub format_file_mode : ℕ → Text
format_file_mode mode = octal_text 32 (octal_from_file_mode mode) []

abbrev is_octal_digit : ℕ → Bool
is_octal_digit c = leb b'0' c && leb c b'7'

unfoldable pub octal_value : ℕ → Text → ℕ
octal_value v [] = v
octal_value v (c ∷ s) = octal_value (v * 8 + (c - b'0')) s

-- strconv.ParseUint in base 8 and 32 bits.
unfoldable pub parse_octal : Text → Option ℕ
parse_octal s =
    if is_nil s || not (all is_octal_digit s)
    then none
    else if ltb (octal_value 0 s) (2 ^ 32)
    then some (octal_value 0 s)
    else none

unfoldable pub parse_file_mode : Text → Result ModeError ℕ
parse_file_mode raw =
    if is_nil (trim_space raw) then err no_mode else (elim (parse_octal (trim_space raw)) [
      | none ↦ err (not_octal raw)
      | some n ↦ if ltb 4095 n then err (out_of_range raw) else ok (file_mode_from_octal n)
    ])

-- Whether a mode needs the `chmod` that follows a write.
abbrev pub has_special_bits : ℕ → Bool
has_special_bits mode =
    has_bit mode mode_setuid || (has_bit mode mode_setgid || has_bit mode mode_sticky)
