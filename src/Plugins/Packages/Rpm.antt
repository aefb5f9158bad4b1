-- ===== src/Plugins/Packages/Rpm.antt =====
-- internals/plugins/packages/rpm.go: asking `rpm` about a package.
use hardline.Base.{
  ℕ, ◌+◌, Text, codes, Bool, true, false, not, ◌&&◌, ◌||◌, Option, none, some, List, [], ◌∷◌, ◌++◌,
  Result, ok, err, if◌then◌else◌, is_nil, nat_eq, trim_space, has_prefix, has_suffix, drop, cut,
  split, join,
}
use hardline.Base.Exec.{Exec, ◌>>=◌, lift, wrapping}
use hardline.Pluginapi.Host.{Host}
use hardline.Pluginapi.Shell.{shell_arg}
use hardline.Pluginapi.Probe.{first_lines}
use hardline.Plugins.Packages.Backend.{
  QueryError, query_failed, malformed_answer, incomplete_probe, noisy_probe, PkgFound,
}

abbrev pub not_found : PkgFound
not_found = record { installed = false; version = []; pin = [] }

-- The format of the source is a raw string, in which the backslashes are characters.
abbrev rpm_query_fmt : Text
rpm_query_fmt =
    codes
      "--qf 'HL:%|EPOCH?{%{EPOCH}:}:{}|%{VERSION}-%{RELEASE}\\t%{NAME}-%|EPOCH?{%{EPOCH}:}:{}|%{VERSION}-%{RELEASE}.%{ARCH}\\n' "

abbrev rpm_probe_rc : Text
rpm_probe_rc = codes "HL-RC:"

abbrev rpm_end : Text
rpm_end = codes " 2>&1; echo \"HL-RC:$?\""

unfoldable pub rpm_probe : Text → Text
rpm_probe arg =
    codes "rpm -q "
    ++ (rpm_query_fmt
        ++ (arg
            ++ (rpm_end
                ++ (codes "; rpm -q --whatprovides " ++ (rpm_query_fmt ++ (arg ++ rpm_end))))))

unfoldable pub is_rpm_miss_message : Text → Bool
is_rpm_miss_message line =
    (has_prefix line (codes "package ") && has_suffix line (codes " is not installed"))
    || has_prefix line (codes "no package provides ")

-- The answer behind `HL:`, cut at its tab.
abbrev rpm_answer : Text → Text → Option (Text × Text) → Result QueryError PkgFound
rpm_answer name answer none = err (malformed_answer name answer)
rpm_answer name answer (some (evr, nevra)) =
    if is_nil evr || is_nil nevra
    then err (malformed_answer name answer)
    else ok (record { installed = true; version = evr; pin = nevra })

-- The end of the loop, with the number of exit codes and the lines that say nothing known.
abbrev rpm_end_verdict : Text → Text → ℕ → List Text → Result QueryError PkgFound
rpm_end_verdict name out statuses noise =
    if not (nat_eq statuses 2)
    then err (incomplete_probe name (first_lines out 3))
    else if not (is_nil noise)
    then err (noisy_probe name (first_lines (join noise (10 ∷ [])) 3))
    else ok not_found

-- What a line of the output is, without the spaces around it.
pub data RpmLine : Type 0 where
  answer_line : Text → RpmLine
  status_line ignored_line noise_line : RpmLine

abbrev rpm_line : Text → RpmLine
rpm_line t =
    if is_nil t
    then ignored_line
    else if has_prefix t (codes "HL:")
    then answer_line (drop 3 t)
    else if has_prefix t rpm_probe_rc
    then status_line
    else if is_rpm_miss_message t
    then ignored_line
    else noise_line

unfoldable pub rpm_lines : Text → Text → ℕ → List Text → List Text → Result QueryError PkgFound
rpm_lines name out statuses noise [] = rpm_end_verdict name out statuses noise
rpm_lines name out statuses noise (line ∷ rest) = elim (rpm_line (trim_space line)) [
  | answer_line answer ↦ rpm_answer name answer (cut 9 answer)
  | status_line ↦ rpm_lines name out (statuses + 1) noise rest
  | ignored_line ↦ rpm_lines name out statuses noise rest
  | noise_line ↦ rpm_lines name out statuses (noise ++ (trim_space line ∷ [])) rest
]

unfoldable pub classify_rpm_probe : Text → Text → Result QueryError PkgFound
classify_rpm_probe name out = rpm_lines name out 0 [] (split 10 out)

unfoldable pub rpm_query : {W : Type 0} → Host W → Text → Exec W QueryError PkgFound
rpm_query host name = do
  out ← wrapping (query_failed name) (host.run_root_with_output (rpm_probe (shell_arg name)))
  lift (classify_rpm_probe name out)
