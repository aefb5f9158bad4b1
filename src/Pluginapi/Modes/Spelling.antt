-- ===== src/Pluginapi/Modes/Spelling.antt =====
-- pkg/pluginapi/helpers.go: the two spellings of a mode, for every mode that a host or a profile can
-- have, which are the octal numbers up to 07777.
use hardline.Base.{
  all_below, all_below-holds, ℕ, ◌<◌, Text, ◌≡◌, refl, ap, sym, ltb, is_nil, Bool-cases,
  Option-cases, inl, inr, Bool, true, false, ◌&&◌, Result, ok, err, nat_eq, nat_eq_iff, arith,
  is_space, trim_left, trim_right, trim_space,
}
use hardline.Pluginapi.Modes.{
  ModeError, file_mode_from_octal, octal_from_file_mode, octal_text, format_file_mode, octal_value,
  parse_octal, parse_file_mode,
}

abbrev is_mode : ℕ → Result ModeError ℕ → Bool
is_mode n (ok m) = nat_eq m n
is_mode n (err e) = false

is_mode-ok : (n : ℕ) (r : Result ModeError ℕ) → is_mode n r ≡ true → r ≡ ok n
is_mode-ok n (ok m) h = ap (λ (x : ℕ). ok x) ((nat_eq_iff m n).0 h)
is_mode-ok n (err e) h = absurd (cc)

abbrev spelled : ℕ → Bool
spelled n =
    is_mode (file_mode_from_octal n) (parse_file_mode (format_file_mode (file_mode_from_octal n)))
    && nat_eq (octal_from_file_mode (file_mode_from_octal n)) n

spelled_modes : all_below 4096 spelled ≡ true
unfolding all_below parse_file_mode format_file_mode octal_from_file_mode octal_text parse_octal
    octal_value file_mode_from_octal trim_space trim_left trim_right is_space
spelled_modes = refl

-- Every mode up to 07777 is read back from its text, and the host's spelling of it is its octal
-- number: no bit is lost between a profile, the journal and the host.
pub parse_file_mode-format_file_mode :
    (n : ℕ)
    → n < 4096
    → (parse_file_mode (format_file_mode (file_mode_from_octal n)) ≡ ok (file_mode_from_octal n))
      × (octal_from_file_mode (file_mode_from_octal n) ≡ n)
parse_file_mode-format_file_mode n h =
    let holds = all_below-holds 4096 spelled n spelled_modes h in
    (is_mode-ok (file_mode_from_octal n) _ (ground arith), ground arith)

-- A mode that is read is one of those, whatever the text was.
pub parse_file_mode-bounded :
    (raw : Text) (mode : ℕ)
    → parse_file_mode raw ≡ ok mode
    → (n : ℕ) × (n < 4096) × (mode ≡ file_mode_from_octal n)
unfolding parse_file_mode
parse_file_mode-bounded raw mode h = elim (Bool-cases (is_nil (trim_space raw))) [
  | inl e ↦ absurd (cc (rw e at h))
  | inr e ↦ elim (Option-cases (parse_octal (trim_space raw))) [
    | inl f ↦ absurd (cc (rw (e, f) at h))
    | inr (n, f) ↦ elim (Bool-cases (ltb 4095 n)) [
      | inl g ↦ absurd (cc (rw (e, f, g) at h))
      | inr g ↦ (n, ground arith, sym (cc (rw (e, f, g) at h)))
    ]
  ]
]
