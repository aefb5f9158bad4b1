-- ===== src/Plugins/Packages/Names.antt =====
-- internals/plugins/packages/rpm.go and the patterns of the backends: names of packages, and which
-- removals of a transaction nobody declared. A Go set of names is a list of them.
use hardline.Base.{
  ℕ, ◌-◌, Text, codes, Bool, false, not, ◌&&◌, ◌||◌, Option, none, some, List, [], ◌∷◌, ◌++◌, ◌==◌,
  if◌then◌else◌, is_nil, any, all, select, leb, nat_eq, length, trim_space, has_suffix,
}
use hardline.Plugins.Packages.Ops.{take}

unfoldable pub member : Text → List Text → Bool
member name l = any (λ x. x == name) l

unfoldable pub rpm_arches : List Text
rpm_arches =
    codes "x86_64"
    ∷ (codes "noarch"
        ∷ (codes "aarch64"
            ∷ (codes "i686"
                ∷ (codes "i386"
                    ∷ (codes "armv7hl"
                        ∷ (codes "ppc64le" ∷ (codes "s390x" ∷ (codes "src" ∷ []))))))))

-- strings.CutSuffix, for a rest that is not empty.
abbrev pub cut_suffix : Text → Text → Option Text
cut_suffix s suffix =
    let rest = take (length s - length suffix) s in
    if has_suffix s suffix && not (is_nil rest) then some rest else none

abbrev pub trim_arches : Text → List Text → Option Text
trim_arches token [] = none
trim_arches token (arch ∷ rest) =
    let later = trim_arches token rest in
    elim (cut_suffix token (b'.' ∷ arch)) [ some name ↦ some name | none ↦ later ]

unfoldable pub trim_rpm_arch : Text → Option Text
trim_rpm_arch token = trim_arches token rpm_arches

unfoldable pub is_rpm_arch : Text → Bool
is_rpm_arch token = any (λ arch. token == arch) rpm_arches

-- The name that a declared entry stands for.
abbrev pub bare_name : Text → Text
bare_name name = elim (trim_rpm_arch name) [ none ↦ name | some trimmed ↦ trimmed ]

unfoldable pub declared_name_set : List Text → List Text
declared_name_set [] = []
declared_name_set (raw ∷ names) =
    let rest = declared_name_set names in
    if is_nil (trim_space raw) then rest else bare_name (trim_space raw) ∷ rest

unfoldable pub unexpected_removals : List Text → List Text → List Text
unexpected_removals want preview = select (λ p. not (member p (declared_name_set want))) preview

abbrev lower : ℕ → Bool
lower c = leb b'a' c && leb c b'z'

abbrev upper : ℕ → Bool
upper c = leb b'A' c && leb c b'Z'

abbrev digit : ℕ → Bool
digit c = leb b'0' c && leb c b'9'

-- A byte of the first class before at most `n` of the second.
abbrev one_then : (ℕ → Bool) → (ℕ → Bool) → ℕ → Text → Bool
one_then first more n [] = false
one_then first more n (c ∷ s) = first c && (all more s && leb (length s) n)

-- One to `n` bytes of a class.
abbrev some_of : (ℕ → Bool) → ℕ → Text → Bool
some_of p n s = not (is_nil s) && (all p s && leb (length s) n)

abbrev rpm_byte : ℕ → Bool
rpm_byte c =
    lower c
    || (upper c
        || (digit c || (nat_eq c b'.' || (nat_eq c b'_' || (nat_eq c b'+' || nat_eq c b'-')))))

-- RPMNameRe
unfoldable pub rpm_name : Text → Bool
rpm_name s = one_then (λ c. lower c || (upper c || digit c)) rpm_byte 127 s

-- Some way to cut the text at a byte passes both tests.
unfoldable pub cuts : ℕ → (Text → Bool) → (Text → Bool) → Text → Text → Bool
cuts sep left right before [] = false
cuts sep left right before (c ∷ s) =
    (nat_eq c sep && (left before && right s)) || cuts sep left right (before ++ (c ∷ [])) s

abbrev evr_byte : ℕ → Bool
evr_byte c = rpm_byte c || (nat_eq c b':' || (nat_eq c 126 || nat_eq c 94))

abbrev arch_byte : ℕ → Bool
arch_byte c = lower c || (digit c || nat_eq c b'_')

-- RPMPinRe
unfoldable pub rpm_pin : Text → Bool
rpm_pin s =
    cuts b'-' rpm_name (cuts b'.' (one_then digit evr_byte 127) (some_of arch_byte 16) []) [] s

abbrev apt_byte : ℕ → Bool
apt_byte c = lower c || (digit c || (nat_eq c b'+' || (nat_eq c b'.' || nat_eq c b'-')))

-- The name pattern of apt/plugin.go.
unfoldable pub apt_name : Text → Bool
apt_name s = one_then (λ c. lower c || digit c) apt_byte 127 s

abbrev apt_version_byte : ℕ → Bool
apt_version_byte c = apt_byte c || (upper c || (nat_eq c b':' || nat_eq c 126))

-- The pin pattern of apt/plugin.go.
unfoldable pub apt_pin : Text → Bool
apt_pin s = cuts b'=' apt_name (some_of apt_version_byte 128) [] s
