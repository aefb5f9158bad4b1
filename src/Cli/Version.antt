-- ===== src/Cli/Version.antt =====
-- internals/cli/version.go: semantic versions. The embedded version file is JSON and a parameter of
-- the caller; `strconv.Atoi` is written out, with its sign and its range of 64 bits.
pub mod Order
use hardline.Base.{
  ℤ, pos, negsuc, is_digit, digits_value, atoi, cut, ℕ, zero, suc, ◌+◌, ◌*◌, ◌^◌, Text, codes, Bool,
  true, false, not, ◌&&◌, ◌||◌, Option, none, some, List, [], ◌∷◌, ◌++◌, Result, ok, err, ◌>>=◌,
  if◌then◌else◌, is_nil, leb, ltb, nat_eq, all, trim_space, ◌-◌,
}

pub record SemVer : Type 0 where
  pub major : ℤ
  pub minor : ℤ
  pub patch : ℤ
  pub pre : Text

pub data VersionError : Type 0 where
  not_three_parts bad_prerelease bad_major bad_minor bad_patch : Text → VersionError

abbrev trim_v : Text → Text
trim_v [] = []
trim_v (c ∷ s) = if nat_eq c b'v' then s else c ∷ s

abbrev is_prerelease_byte : ℕ → Bool
is_prerelease_byte c =
    (leb b'a' c && leb c b'z') || ((leb b'A' c && leb c b'Z') || (is_digit c || nat_eq c b'.'))

unfoldable pub valid_prerelease : Text → Bool
valid_prerelease s = not (is_nil s) && all is_prerelease_byte s

abbrev or_fail : Option ℤ → VersionError → Result VersionError ℤ
or_fail none e = err e
or_fail (some n) e = ok n

-- The three parts of a version without a pre-release, and the pre-release.
unfoldable pub parse_numbers : Text → Text → Text → Text → Text → Result VersionError SemVer
parse_numbers s a b c pre = do
  major ← or_fail (atoi a) (bad_major s)
  minor ← or_fail (atoi b) (bad_minor s)
  patch ← or_fail (atoi c) (bad_patch s)
  ok (record { major = major; minor = minor; patch = patch; pre = pre })

unfoldable pub parse_sem_ver : Text → Result VersionError SemVer
parse_sem_ver text =
    let s = trim_v (trim_space text) in
    elim (cut b'.' s) [
      | none ↦ err (not_three_parts s)
      | some (a, rest) ↦ elim (cut b'.' rest) [
        | none ↦ err (not_three_parts s)
        | some (b, c) ↦ elim (cut b'-' c) [
          | none ↦ parse_numbers s a b c []
          | some (d, pre) ↦
              if valid_prerelease pre then parse_numbers s a b d pre else err (bad_prerelease s)
        ]
      ]
    ]

abbrev pub int_lt : ℤ → ℤ → Bool
int_lt (pos a) (pos b) = ltb a b
int_lt (pos a) (negsuc b) = false
int_lt (negsuc a) (pos b) = true
int_lt (negsuc a) (negsuc b) = ltb b a

abbrev pub int_eq : ℤ → ℤ → Bool
int_eq (pos a) (pos b) = nat_eq a b
int_eq (pos a) (negsuc b) = false
int_eq (negsuc a) (pos b) = false
int_eq (negsuc a) (negsuc b) = nat_eq a b

-- One of the three comparisons; the rest decides between equal numbers.
abbrev pub compare_part : ℤ → ℤ → ℤ → ℤ
compare_part a b rest = if int_eq a b then rest else if int_lt a b then negsuc 0 else pos 1

unfoldable pub compare_parsed : SemVer → SemVer → ℤ
compare_parsed a b =
    compare_part a.major b.major
      (compare_part a.minor b.minor (compare_part a.patch b.patch (pos 0)))

unfoldable pub compare_sem_ver : Text → Text → Result VersionError ℤ
compare_sem_ver a b = do va ← parse_sem_ver a; vb ← parse_sem_ver b; ok (compare_parsed va vb)
