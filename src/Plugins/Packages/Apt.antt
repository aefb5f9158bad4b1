-- ===== src/Plugins/Packages/Apt.antt =====
-- internals/plugins/packages/apt: what `apt-get -s` and `dpkg-query` print, and the backend of apt.
use hardline.Base.{
  ℕ, ◌+◌, Text, codes, Bool, true, false, not, ◌||◌, Option, none, some, List, [], ◌∷◌, ◌++◌, ◌==◌,
  Result, ok, err, if◌then◌else◌, is_nil, any, nat_eq, ltb, trim_space, has_prefix, drop, cut,
  split, join, fields,
}
use hardline.Base.Exec.{Exec, ◌>>=◌, pure, lift, wrapping}
use hardline.Pluginapi.Host.{Host}
use hardline.Pluginapi.Shell.{shell_arg}
use hardline.Pluginapi.Probe.{first_lines}
use hardline.Plugins.Packages.Names.{apt_name, apt_pin}
use hardline.Plugins.Packages.Exec.{append_packages, timeout_cmd, lock_probe, check_lock}
use hardline.Plugins.Packages.Backend.{
  QueryError, query_failed, unexpected_status, error_state, no_version, half_installed,
  incomplete_probe, noisy_probe, many_architectures, no_status, PkgFound, PreviewError,
  preview_failed, Backend,
}
use hardline.Plugins.Packages.Rpm.{not_found}
use hardline.Plugins.Packages.Dnf.{add_name}

abbrev sim_cmd : Text → Text
sim_cmd tail = codes "LC_ALL=C DEBIAN_FRONTEND=noninteractive apt-get -s " ++ tail

-- What stands before the first colon.
abbrev before_colon : Text → Text
before_colon t = elim (cut b':' t) [ none ↦ t | some p ↦ p.0 ]

abbrev second_name : List Text → Option Text
second_name (verb ∷ (name ∷ rest)) =
    if is_nil (before_colon name) then none else some (before_colon name)
second_name l = none

unfoldable pub has_any_prefix : Text → List Text → Bool
has_any_prefix line prefixes = any (λ p. has_prefix line p) prefixes

abbrev simulated : List Text → Text → Option Text
simulated prefixes line = if has_any_prefix line prefixes then second_name (fields line) else none

unfoldable pub simulation_lines : List Text → List Text → List Text → List Text
simulation_lines prefixes pkgs [] = pkgs
simulation_lines prefixes pkgs (line ∷ rest) =
    simulation_lines prefixes (add_name pkgs (simulated prefixes (trim_space line))) rest

unfoldable pub parse_simulation : Text → List Text → List Text
parse_simulation out prefixes = simulation_lines prefixes [] (split 10 out)

abbrev pub inst_prefixes : List Text
inst_prefixes = codes "Inst " ∷ []

abbrev pub remv_prefixes : List Text
remv_prefixes = codes "Remv " ∷ (codes "Purg " ∷ [])

unfoldable pub simulate : {W : Type 0} → Host W → Text → List Text → Exec W PreviewError (List Text)
simulate host command prefixes = do
  out ← wrapping preview_failed (host.run_root_with_output command)
  pure (parse_simulation out prefixes)

-- What the loop of `classifyDpkgProbe` has collected.
pub record DpkgOutput : Type 0 where
  pub statuses : ℕ
  pub missed : Bool
  pub answers : ℕ
  pub noise : List Text
  pub status : Text
  pub version : Text

abbrev pub no_output : DpkgOutput
no_output = record {
  statuses = 0;
  missed = false;
  answers = 0;
  noise = [];
  status = [];
  version = [];
}

abbrev cut_tab : Text → Text × Text
cut_tab t = elim (cut 9 t) [ none ↦ (t, []) | some p ↦ p ]

-- One line, without the spaces around it.
unfoldable pub dpkg_line : DpkgOutput → Text → DpkgOutput
dpkg_line d t =
    if is_nil t
    then d
    else if has_prefix t (codes "HL:")
    then record d {
      answers = d.answers + 1;
      status = (cut_tab (drop 3 t)).0;
      version = (cut_tab (drop 3 t)).1;
    }
    else if has_prefix t (codes "HL-RC:")
    then record d { statuses = d.statuses + 1 }
    else if has_prefix t (codes "dpkg-query: no packages found matching")
    then record d { missed = true }
    else record d { noise = d.noise ++ (t ∷ []) }

unfoldable pub dpkg_lines : DpkgOutput → List Text → DpkgOutput
dpkg_lines d [] = d
dpkg_lines d (line ∷ rest) = dpkg_lines (dpkg_line d (trim_space line)) rest

unfoldable pub dpkg_state : Text → Text → Text → Text → Result QueryError PkgFound
dpkg_state name status version state =
    if state == codes "installed"
    then (if is_nil version
        then err (no_version name status)
        else ok (record { installed = true; version = version; pin = name ++ (b'=' ∷ version) }))
    else if state == codes "not-installed" || state == codes "config-files"
    then ok not_found
    else err (half_installed name status)

-- The three words of a status.
abbrev dpkg_words : Text → Text → Text → List Text → Result QueryError PkgFound
dpkg_words name status version (want ∷ (eflag ∷ (state ∷ []))) =
    if eflag == codes "ok"
    then dpkg_state name status version state
    else err (error_state name status)
dpkg_words name status version l = err (unexpected_status name status)

unfoldable pub dpkg_verdict : Text → Text → DpkgOutput → Result QueryError PkgFound
dpkg_verdict name out d =
    if not (nat_eq d.statuses 1)
    then err (incomplete_probe name (first_lines out 3))
    else if not (is_nil d.noise)
    then err (noisy_probe name (first_lines (join d.noise (10 ∷ [])) 3))
    else if ltb 1 d.answers
    then err (many_architectures name)
    else if is_nil d.status
    then (if d.missed then ok not_found else err (no_status name))
    else dpkg_words name d.status d.version (fields d.status)

unfoldable pub classify_dpkg_probe : Text → Text → Result QueryError PkgFound
classify_dpkg_probe name out = dpkg_verdict name out (dpkg_lines no_output (split 10 out))

-- The format of the source is a raw string, in which the backslashes are characters.
unfoldable pub query : {W : Type 0} → Host W → Text → Exec W QueryError PkgFound
query host name = do
  out ← wrapping (query_failed name) (
      host.run_root_with_output (
        codes "dpkg-query -W -f='HL:${Status}\\t${Version}\\n' "
        ++ (shell_arg name ++ codes " 2>&1; echo \"HL-RC:$?\"")))
  lift (classify_dpkg_probe name out)

abbrev cmd : Text → Text
cmd tail = codes "DEBIAN_FRONTEND=noninteractive " ++ timeout_cmd tail

unfoldable pub apt_backend : {W : Type 0} → Backend W
apt_backend = record {
  name = codes "packages_apt";
  name_pattern = apt_name;
  pin_pattern = apt_pin;
  check_lock = λ host.
      check_lock host
        (lock_probe (
          codes "/var/lib/dpkg/lock"
          ∷ (codes "/var/lib/apt/lists/lock" ∷ (codes "/var/lib/dpkg/lock-frontend" ∷ []))))
        (codes "investigate with: sudo lsof /var/lib/dpkg/lock");
  query = query;
  commands = record {
    update = cmd (codes "apt-get update -y");
    upgrade = cmd (codes "apt-get upgrade -y");
    install = cmd (codes "apt-get install -y");
    purge = cmd (codes "apt-get purge -y");
    autoremove = cmd (codes "apt-get autoremove -y");
    rollback_remove = [];
  };
  previews = record {
    upgrade = λ host. simulate host (sim_cmd (codes "upgrade")) inst_prefixes;
    install = λ host names.
        simulate host (append_packages (sim_cmd (codes "install")) names) inst_prefixes;
    purge =
        λ host names. simulate host (append_packages (sim_cmd (codes "purge")) names) remv_prefixes;
    autoremove = λ host. simulate host (sim_cmd (codes "autoremove")) remv_prefixes;
    rollback_remove = none;
  };
}
