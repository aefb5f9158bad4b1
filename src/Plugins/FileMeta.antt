-- ===== src/Plugins/FileMeta.antt =====
-- internals/plugins/filemeta: the step config, its checks and its errors. A missing host or config is not
-- a value here.
pub mod Metadata
pub mod Run
pub mod Preview
pub mod Snapshot
pub mod Idle
use hardline.Base.{
  ℕ, Text, codes, Bool, true, false, not, ◌&&◌, ◌||◌, Option, none, some, List, [], ◌∷◌, ◌++◌, ◌==◌,
  Result, ok, err, is_ok, if◌then◌else◌, is_nil, any, all, leb, nat_eq, length, trim_space,
  has_prefix, fields, is_some,
}
use hardline.Base.Exec.{Exec, ◌>>=◌, ◌>>◌, pure, fail, lift, wrapping}
use hardline.Pluginapi.Host.{Host, Fault}
use hardline.Pluginapi.Shell.{shell_arg}
use hardline.Pluginapi.Records.{FileMetaSnapshot}
use hardline.Pluginapi.Modes.{ModeError, parse_file_mode, format_file_mode}
use hardline.Pluginapi.Paths.{clean_rooted}

pub record Spec : Type 0 where
  pub path : Text
  pub mode : Text
  pub owner : Text
  pub group : Text
  pub immutable : Option Bool
  pub append_only : Option Bool

pub data TargetError : Type 0 where
  target_empty : TargetError
  bad_characters not_absolute is_root not_normalized : Text → TargetError

pub data FileMetaError : Type 0 where
  bad_target : TargetError → FileMetaError
  bad_mode : ModeError → FileMetaError
  invalid_owner invalid_group : Text → FileMetaError
  nothing_set missing_snapshot wrong_kind : FileMetaError
  inspect_failed : Fault → FileMetaError
  unexpected_format : Text → FileMetaError
  attrs_failed : Fault → FileMetaError
  does_not_exist no_longer_exists : Text → FileMetaError
  chmod_failed chown_failed clear_failed set_failed : Fault → FileMetaError

abbrev is_alnum : ℕ → Bool
is_alnum c =
    (leb b'a' c && leb c b'z') || ((leb b'A' c && leb c b'Z') || (leb b'0' c && leb c b'9'))

abbrev one_of : Text → ℕ → Bool
one_of l c = any (λ d. nat_eq c d) l

-- targetPathPattern, of a text that is not empty.
unfoldable pub is_target_byte : ℕ → Bool
is_target_byte c = is_alnum c || one_of (codes "._/@-") c

-- strings.TrimRight for slashes.
unfoldable pub trim_slashes : Text → Text
trim_slashes [] = []
trim_slashes (c ∷ s) =
    let rest = trim_slashes s in if nat_eq c b'/' && is_nil rest then [] else c ∷ rest

unfoldable pub enforce_abs_clean_path : Text → Result TargetError Text
enforce_abs_clean_path target =
    let p = (if target == codes "/" then target else trim_slashes target) in
    if is_nil target
    then err target_empty
    else if not (all is_target_byte target)
    then err (bad_characters target)
    else if not (has_prefix target (codes "/"))
    then err (not_absolute target)
    else if is_nil p || p == codes "/"
    then err (is_root target)
    else if not (clean_rooted p == p)
    then err (not_normalized target)
    else ok p

-- userGroupPattern
unfoldable pub matches_user_group : Text → Bool
matches_user_group [] = false
matches_user_group (c ∷ s) =
    (is_alnum c || one_of (codes "._") c)
    && (all (λ d. is_alnum d || one_of (codes "._-") d) s && leb (length s) 31)

unfoldable pub normalize_mode : Text → Result ModeError Text
normalize_mode mode =
    if is_nil (trim_space mode)
    then ok []
    else (elim (parse_file_mode mode) [ err e ↦ err e | ok m ↦ ok (format_file_mode m) ])

abbrev pub is_set : Text → Bool
is_set t = not (is_nil (trim_space t))

abbrev pub manages_attrs : Spec → Bool
manages_attrs s = is_some s.immutable || is_some s.append_only

unfoldable pub chown_arg : Spec → Text
chown_arg s =
    let owner = trim_space s.owner in
    let group = trim_space s.group in
    if not (is_nil owner) && not (is_nil group)
    then owner ++ (b':' ∷ group)
    else if not (is_nil owner)
    then owner
    else if not (is_nil group)
    then b':' ∷ group
    else []

abbrev checked_owner : Text → Result FileMetaError (Unit {0})
checked_owner t =
    if is_set t && not (matches_user_group (trim_space t))
    then err (invalid_owner (trim_space t))
    else ok tt

abbrev checked_group : Text → Result FileMetaError (Unit {0})
checked_group t =
    if is_set t && not (matches_user_group (trim_space t))
    then err (invalid_group (trim_space t))
    else ok tt

abbrev sets_something : Spec → Result FileMetaError (Unit {0})
sets_something s =
    if is_set s.mode || (is_set s.owner || (is_set s.group || manages_attrs s))
    then ok tt
    else err nothing_set

abbrev pub target_of : Text → Result FileMetaError Text
target_of path = elim (enforce_abs_clean_path path) [ err e ↦ err (bad_target e) | ok p ↦ ok p ]

abbrev pub checked_mode : Text → Result FileMetaError Text
checked_mode mode = elim (normalize_mode mode) [ err e ↦ err (bad_mode e) | ok m ↦ ok m ]

-- One check after another, of which the first error counts.
abbrev first_error : List (Result FileMetaError (Unit {0})) → Result FileMetaError (Unit {0})
first_error [] = ok tt
first_error (ok x ∷ l) = first_error l
first_error (err e ∷ l) = err e

abbrev forget : Result FileMetaError Text → Result FileMetaError (Unit {0})
forget (ok t) = ok tt
forget (err e) = err e

unfoldable pub validate_spec : Spec → Result FileMetaError (Unit {0})
validate_spec s = first_error (
    forget (target_of s.path)
    ∷ (forget (checked_mode s.mode)
        ∷ (checked_owner s.owner ∷ (checked_group s.group ∷ (sets_something s ∷ [])))))
