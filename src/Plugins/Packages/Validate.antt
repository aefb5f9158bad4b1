-- ===== src/Plugins/Packages/Validate.antt =====
-- internals/plugins/packages/validate.go: the checks of the lists of a step. The pattern of names is
-- the backend's.
use hardline.Base.{
  Text, Bool, List, [], ◌∷◌, Result, ok, err, ◌>>=◌, ◌>>◌, if◌then◌else◌, is_nil, trim_space, map,
}
use hardline.Plugins.Packages.Names.{member}

pub data ListError : Type 0 where
  invalid_name : Text → ListError
  empty_install empty_purge empty_collateral : ListError
  duplicate_install duplicate_purge duplicate_collateral : Text → ListError
  installed_and_purged installed_and_collateral purged_and_collateral : Text → ListError

unfoldable pub validate_names : (Text → Bool) → List Text → Result ListError (Unit {0})
validate_names pattern [] = ok tt
validate_names pattern (name ∷ rest) =
    let next = validate_names pattern rest in if pattern name then next else err (invalid_name name)

-- The loop over the install list: the names seen so far are passed on, and returned.
unfoldable pub check_install : List Text → List Text → Result ListError (List Text)
check_install seen [] = ok seen
check_install seen (raw ∷ rest) =
    let next = check_install (trim_space raw ∷ seen) rest in
    if is_nil (trim_space raw)
    then err empty_install
    else if member (trim_space raw) seen
    then err (duplicate_install (trim_space raw))
    else next

unfoldable pub check_purge : List Text → List Text → List Text → Result ListError (Unit {0})
check_purge install seen [] = ok tt
check_purge install seen (raw ∷ rest) =
    let next = check_purge install (trim_space raw ∷ seen) rest in
    if is_nil (trim_space raw)
    then err empty_purge
    else if member (trim_space raw) seen
    then err (duplicate_purge (trim_space raw))
    else if member (trim_space raw) install
    then err (installed_and_purged (trim_space raw))
    else next

unfoldable pub validate_lists : (Text → Bool) → List Text → List Text → Result ListError (Unit {0})
validate_lists pattern install_list purge_list = check_install [] install_list >>= λ install.
    check_purge install [] purge_list
    >> validate_names pattern install_list
    >> validate_names pattern purge_list

unfoldable pub check_collateral :
    List Text → List Text → List Text → List Text → Result ListError (Unit {0})
check_collateral install purge seen [] = ok tt
check_collateral install purge seen (raw ∷ rest) =
    let next = check_collateral install purge (trim_space raw ∷ seen) rest in
    if is_nil (trim_space raw)
    then err empty_collateral
    else if member (trim_space raw) seen
    then err (duplicate_collateral (trim_space raw))
    else if member (trim_space raw) install
    then err (installed_and_collateral (trim_space raw))
    else if member (trim_space raw) purge
    then err (purged_and_collateral (trim_space raw))
    else next

unfoldable pub validate_purge_collateral :
    List Text → List Text → List Text → Result ListError (Unit {0})
validate_purge_collateral install_list purge_list collateral =
    check_collateral (map trim_space install_list) (map trim_space purge_list) [] collateral
