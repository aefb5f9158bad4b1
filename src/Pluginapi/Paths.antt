-- ===== src/Pluginapi/Paths.antt =====
-- pkg/pluginapi/helpers.go: `EnforceManagedPath`, with what it uses of the package `path`. The path is
-- rooted when it comes to `path.Clean`.
pub mod Managed
use hardline.Base.{
  ℕ, Text, codes, Bool, true, false, not, ◌&&◌, ◌||◌, Option, none, some, List, [], ◌∷◌, ◌++◌, ◌==◌,
  Result, ok, err, if◌then◌else◌, is_nil, leb, nat_eq, all, trim_space, to_lower, has_prefix, split,
  reverse, join,
}

pub data PathError : Type 0 where
  empty_path : PathError
  bad_characters outside_etc not_normalized no_hardline_prefix : Text → PathError
  unsupported_extension : Text → Text → PathError

-- managedPathPattern
unfoldable pub is_managed_byte : ℕ → Bool
is_managed_byte c =
    (leb b'A' c && leb c b'Z')
    || ((leb b'a' c && leb c b'z')
        || ((leb b'0' c && leb c b'9')
            || (nat_eq c b'.' || (nat_eq c b'_' || (nat_eq c b'/' || nat_eq c b'-')))))

abbrev pub pop : List Text → List Text
pop [] = []
pop (c ∷ cs) = cs

-- One component of a rooted path, over the components kept so far, the last one first.
unfoldable pub clean_step : List Text → Text → List Text
clean_step kept c =
    if is_nil c || c == codes "." then kept else if c == codes ".." then pop kept else c ∷ kept

unfoldable pub clean_components : List Text → List Text → List Text
clean_components kept [] = kept
clean_components kept (c ∷ cs) = clean_components (clean_step kept c) cs

-- A rooted path of these components.
unfoldable pub rooted : List Text → Text
rooted cs = b'/' ∷ join cs (b'/' ∷ [])

-- path.Clean of a path that starts with a slash.
unfoldable pub clean_rooted : Text → Text
clean_rooted p = rooted (reverse (clean_components [] (split b'/' p)))

abbrev last_of : Text → List Text → Text
last_of d [] = d
last_of d (c ∷ cs) = last_of c cs

-- path.Base of a clean path.
unfoldable pub base_name : Text → Text
base_name p = last_of [] (split b'/' p)

-- path.Ext of a name: from its last dot on.
unfoldable pub extension : Text → Text
extension [] = []
extension (c ∷ s) =
    let rest = extension s in if is_nil rest then (if nat_eq c b'.' then c ∷ s else []) else rest

abbrev without_last : List Text → List Text
without_last [] = []
without_last (c ∷ []) = []
without_last (c ∷ (d ∷ cs)) = c ∷ without_last (d ∷ cs)

-- path.Dir of a rooted path.
unfoldable pub dir_rooted : Text → Text
dir_rooted p = rooted (reverse (clean_components [] (without_last (split b'/' p))))

unfoldable pub check_extension : Text → Text → Result PathError (Unit {0})
check_extension p ext =
    if ext == codes ".conf" || (ext == codes ".nft" || ext == codes ".rules")
    then ok tt
    else err (unsupported_extension p ext)

unfoldable pub enforce_managed_path : Text → Result PathError (Unit {0})
enforce_managed_path dest =
    let p = trim_space dest in
    if is_nil p
    then err empty_path
    else if not (all is_managed_byte p)
    then err (bad_characters p)
    else if not (has_prefix p (codes "/etc/"))
    then err (outside_etc p)
    else if not (clean_rooted p == p)
    then err (not_normalized p)
    else if not (has_prefix (base_name p) (codes "99-hardline"))
        && not (has_prefix (base_name p) (codes "00-hardline"))
    then err (no_hardline_prefix p)
    else check_extension p (to_lower (extension (base_name p)))
