-- ===== src/Plugins/Packages/Dnf.antt =====
-- internals/plugins/packages/dnf_preview.go and rpm.go: what `dnf` prints of a transaction, and the
-- backends of dnf4/plugin.go and dnf5/plugin.go.
use hardline.Base.{
  Text, codes, Bool, true, false, not, ◌&&◌, ◌||◌, Option, none, some, List, [], ◌∷◌, ◌++◌, Result,
  ok, err, if◌then◌else◌, is_nil, trim_space, has_prefix, has_suffix, contains, split, fields,
}
use hardline.Base.Exec.{Exec, ◌>>=◌, pure, lift, wrapping}
use hardline.Pluginapi.Host.{Host}
use hardline.Pluginapi.Probe.{first_lines}
use hardline.Plugins.Packages.Names.{member, is_rpm_arch, trim_rpm_arch, rpm_name, rpm_pin}
use hardline.Plugins.Packages.Exec.{append_packages, timeout_cmd, lock_probe, check_lock}
use hardline.Plugins.Packages.Backend.{
  PreviewError, preview_failed, no_transaction, Commands, Previews, Backend,
}
use hardline.Plugins.Packages.Rpm.{rpm_query}

-- The name that a row of a transaction is about: a row has three words, and the second is an
-- architecture.
abbrev row_name : List Text → Option Text
row_name (name ∷ (arch ∷ (version ∷ rest))) = if is_rpm_arch arch then some name else none
row_name l = none

abbrev section_of : Text → Text
section_of trimmed = if has_suffix trimmed (codes ":") then trimmed else []

-- The next state of a list of names without repetitions.
abbrev pub add_name : List Text → Option Text → List Text
add_name pkgs none = pkgs
add_name pkgs (some name) = if member name pkgs then pkgs else pkgs ++ (name ∷ [])

-- One line: the section that it leaves, and the names so far.
unfoldable pub transaction_line : List Text → Text → List Text → Text → Text × List Text
transaction_line wanted section pkgs line =
    let t = trim_space line in
    if is_nil t
    then ([], pkgs)
    else if not (has_prefix line (codes " "))
    then (section_of t, pkgs)
    else if not (member section wanted)
    then (section, pkgs)
    else (section, add_name pkgs (row_name (fields t)))

unfoldable pub transaction_lines : List Text → Text → List Text → List Text → List Text
transaction_lines wanted section pkgs [] = pkgs
transaction_lines wanted section pkgs (line ∷ rest) =
    let (section', pkgs') = transaction_line wanted section pkgs line in
    transaction_lines wanted section' pkgs' rest

unfoldable pub parse_rpm_transaction : Text → List Text → List Text
parse_rpm_transaction out wanted = transaction_lines wanted [] [] (split 10 out)

abbrev listed_name : List Text → Option Text
listed_name (name ∷ (version ∷ (repo ∷ rest))) = trim_rpm_arch name
listed_name l = none

unfoldable pub upgrade_line : Bool → Bool → List Text → Text → Bool × List Text
upgrade_line skip obsoleting pkgs line =
    let t = trim_space line in
    if has_prefix t (codes "Obsoleting Packages")
    then (true, pkgs)
    else if skip && (obsoleting && (has_prefix line (codes " ") || has_prefix line (9 ∷ [])))
    then (obsoleting, pkgs)
    else (obsoleting, add_name pkgs (listed_name (fields t)))

unfoldable pub upgrade_lines : Bool → Bool → List Text → List Text → List Text
upgrade_lines skip obsoleting pkgs [] = pkgs
upgrade_lines skip obsoleting pkgs (line ∷ rest) =
    let (obsoleting', pkgs') = upgrade_line skip obsoleting pkgs line in
    upgrade_lines skip obsoleting' pkgs' rest

unfoldable pub parse_dnf_upgrade_list : Text → Bool → List Text
parse_dnf_upgrade_list out skip_obsoleted_rows =
    upgrade_lines skip_obsoleted_rows false [] (split 10 out)

abbrev dnf_assume_no : Text
dnf_assume_no = codes "LC_ALL=C dnf --assumeno "

abbrev dnf_assume_no_tail : Text
dnf_assume_no_tail = codes "; rc=$?; [ \"$rc\" = 1 ] && exit 0; exit $rc"

abbrev dnf_remove_opts : Text
dnf_remove_opts = codes "--setopt=clean_requirements_on_remove=False "

abbrev dnf_install_sections : List Text
dnf_install_sections =
    codes "Installing:"
    ∷ (codes "Installing dependencies:"
        ∷ (codes "Installing weak dependencies:"
            ∷ (codes "Upgrading:" ∷ (codes "Reinstalling:" ∷ []))))

abbrev dnf_remove_sections : List Text
dnf_remove_sections =
    codes "Removing:"
    ∷ (codes "Removing unused dependencies:" ∷ (codes "Removing dependent packages:" ∷ []))

unfoldable pub dnf_commands : Commands
dnf_commands = record {
  update = timeout_cmd (codes "dnf -q -y makecache --refresh");
  upgrade = timeout_cmd (codes "dnf -y upgrade");
  install = timeout_cmd (codes "dnf -y install");
  purge = timeout_cmd (codes "dnf -y remove");
  autoremove = timeout_cmd (codes "dnf -y autoremove");
  rollback_remove = timeout_cmd (codes "dnf -y " ++ (dnf_remove_opts ++ codes "remove"));
}

pub record DnfPreviews : Type 0 where
  pub check_command : Text
  pub transaction_banner : Text
  pub skip_obsoleted_rows : Bool

abbrev with_names : Text → List Text → Text
with_names verb names = append_packages (dnf_assume_no ++ verb) names ++ dnf_assume_no_tail

-- The output of a transaction that dnf was not allowed to run.
abbrev transaction : DnfPreviews → List Text → Text → Result PreviewError (List Text)
transaction p wanted out =
    if not (contains out p.transaction_banner) && not (contains out (codes "Nothing to do"))
    then err (no_transaction (first_lines out 3))
    else ok (parse_rpm_transaction out wanted)

unfoldable pub run_transaction :
    {W : Type 0} → DnfPreviews → Host W → Text → List Text → Exec W PreviewError (List Text)
run_transaction p host command wanted = do
  out ← wrapping preview_failed (host.run_root_with_output command)
  lift (transaction p wanted out)

unfoldable pub upgrade_preview :
    {W : Type 0} → DnfPreviews → Host W → Exec W PreviewError (List Text)
upgrade_preview p host = do
  out ← wrapping preview_failed (host.run_root_with_output p.check_command)
  pure (parse_dnf_upgrade_list out p.skip_obsoleted_rows)

unfoldable pub backend_previews : {W : Type 0} → DnfPreviews → Previews W
backend_previews p = record {
  upgrade = upgrade_preview p;
  install = λ host names.
      run_transaction p host (with_names (codes "install") names) dnf_install_sections;
  purge =
      λ host names. run_transaction p host (with_names (codes "remove") names) dnf_remove_sections;
  autoremove = λ host.
      run_transaction p host (dnf_assume_no ++ (codes "autoremove" ++ dnf_assume_no_tail))
        dnf_remove_sections;
  rollback_remove = some (λ host names.
      run_transaction p host (with_names (dnf_remove_opts ++ codes "remove") names)
        dnf_remove_sections);
}

unfoldable pub dnf4_previews : {W : Type 0} → Previews W
dnf4_previews = backend_previews (record {
  check_command =
      codes "LC_ALL=C dnf -q check-update; rc=$?; [ \"$rc\" = 100 ] && exit 0; exit $rc";
  transaction_banner = codes "Dependencies resolved";
  skip_obsoleted_rows = true;
})

unfoldable pub dnf5_previews : {W : Type 0} → Previews W
dnf5_previews = backend_previews (record {
  check_command =
      codes "LC_ALL=C dnf -q check-upgrade; rc=$?; [ \"$rc\" = 100 ] && exit 0; exit $rc";
  transaction_banner = codes "Transaction Summary";
  skip_obsoleted_rows = false;
})

unfoldable pub dnf5_backend : {W : Type 0} → Backend W
dnf5_backend = record {
  name = codes "packages_dnf5";
  name_pattern = rpm_name;
  pin_pattern = rpm_pin;
  check_lock = λ host.
      check_lock host
        (lock_probe (codes "/var/lib/rpm/.rpm.lock" ∷ (codes "/var/cache/libdnf5/*.pid" ∷ [])))
        (codes "investigate with: sudo lsof /var/lib/rpm/.rpm.lock");
  query = rpm_query;
  commands = dnf_commands;
  previews = dnf5_previews;
}

unfoldable pub dnf4_backend : {W : Type 0} → Backend W
dnf4_backend = record {
  name = codes "packages_dnf4";
  name_pattern = rpm_name;
  pin_pattern = rpm_pin;
  check_lock = λ host.
      check_lock host
        (lock_probe
          (codes "/var/lib/rpm/.rpm.lock" ∷ (codes "/var/cache/dnf/metadata_lock.pid" ∷ [])))
        (codes "investigate with: sudo lsof /var/lib/rpm/.rpm.lock");
  query = rpm_query;
  commands = dnf_commands;
  previews = dnf4_previews;
}
