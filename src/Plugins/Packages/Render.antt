-- ===== src/Plugins/Packages/Render.antt =====
-- internals/plugins/packages/plan.go: `RenderPlan`, the texts of a plan. The text of an error is the
-- host's and stays out of the sentence that reports it.
use hardline.Base.{
  ◌-◌, Text, codes, Bool, true, false, not, ◌&&◌, List, [], ◌∷◌, ◌++◌, ok, err, if◌then◌else◌,
  is_nil, length, map, leb, join, quoted,
}
use hardline.Pluginapi.Records.{PlanResult}
use hardline.Plugins.Packages.Ops.{Decision, decimal}
use hardline.Plugins.Packages.Exec.{may_run}
use hardline.Plugins.Packages.Backend.{PkgInfo}
use hardline.Plugins.Packages.Report.{
  Preview, PlanInputs, changes, undeclared, would_refuse, highlights, diff_of, Extent, nothing,
  only_index, some_change, extent, plan_rollback_fidelity, color_red, color_green, color_yellow,
  color_blue, color_dim, color_reset, failed,
}

abbrev colored : Text → Text → Text
colored color t = color ++ (t ++ color_reset)

abbrev count : List Text → Text
count l = decimal (length l)

-- The reason of a decision, in parentheses.
abbrev because : Decision → Text
because d = (codes " (" ++ (d.reason ++ codes ")"))

unfoldable pub update_details : PlanInputs → List Text
update_details i =
    if not (may_run i.update_mode)
    then []
    else if i.update.will_run
    then colored color_green ((codes "will run: package index update" ++ because i.update)) ∷ []
    else colored color_dim ((codes "update: skipped" ++ because i.update)) ∷ []

abbrev upgrade_detail : Decision → Preview → Text
upgrade_detail d (err e) = colored color_red (codes "upgrade: failed to preview upgrades")
upgrade_detail d (ok []) =
    colored color_blue ((codes "upgrade: no packages would be upgraded (no-op)" ++ because d))
upgrade_detail d (ok (n ∷ l)) =
    colored color_green
      ((codes "upgrade: would upgrade " ++ (count (n ∷ l) ++ (codes " package(s)" ++ because d))))

unfoldable pub upgrade_details : PlanInputs → List Text
upgrade_details i =
    if not (may_run i.upgrade_mode)
    then []
    else if i.upgrade.will_run
    then upgrade_detail i.upgrade i.upgrade_preview ∷ []
    else colored color_dim ((codes "upgrade: skipped" ++ because i.upgrade)) ∷ []

abbrev package_row : Text → Text → Text → Text
package_row name color state =
    (colored color_blue ((codes "package " ++ (quoted name ++ codes ":")))
      ++ (codes " " ++ colored color state))

abbrev install_row : PkgInfo → Text
install_row p =
    if p.installed
    then package_row p.name color_yellow (codes "currently installed (no install change)")
    else package_row p.name color_green (codes "not installed (will be installed)")

abbrev install_deps_detail : List Text → List Text
install_deps_detail [] = []
install_deps_detail (n ∷ l) =
    colored color_dim (
      (codes "the package manager will also install "
        ++ (count (n ∷ l) ++ codes " dependency package(s)")))
    ∷ []

unfoldable pub install_details : PlanInputs → List Text
install_details i =
    map install_row i.install_infos
    ++ (if is_nil i.install_infos
        then []
        else failed i.install_preview
            (colored color_red (codes "install: failed to preview dependency installs"))
          ++ install_deps_detail (changes i).install_deps)

abbrev purge_row : PkgInfo → Text
purge_row p =
    if p.installed
    then package_row p.name color_red (codes "currently installed (will be purged)")
    else package_row p.name color_dim (codes "not installed (purge has no effect)")

abbrev purge_deps_detail : List Text → List Text
purge_deps_detail [] = []
purge_deps_detail (n ∷ l) =
    colored color_red (
      (codes "purge: the package manager will also remove "
        ++ (count (n ∷ l) ++ (codes " other package(s): " ++ join (n ∷ l) (codes ", ")))))
    ∷ []

-- The refusal that `apply` would end with.
abbrev refusal_detail : Text → Text → List Text → List Text
refusal_detail verb before [] = []
refusal_detail verb before (n ∷ l) = colored color_red (verb ++ would_refuse before (n ∷ l)) ∷ []

abbrev purge_preview_details : PlanInputs → Preview → List Text
purge_preview_details i (err e) =
    colored color_red (codes "purge: failed to preview the removal transaction") ∷ []
purge_preview_details i (ok l) =
    purge_deps_detail (changes i).purge_deps
    ++ refusal_detail (codes "purge: ") (codes "purge would also remove ") (undeclared i l)

unfoldable pub purge_details : PlanInputs → List Text
purge_details i =
    map purge_row i.purge_infos
    ++ (if is_nil i.purge_infos then [] else purge_preview_details i i.purge_preview)

abbrev when : Bool → Text → Text
when true t = t
when false t = []

abbrev autoremove_preview_details : PlanInputs → Preview → List Text
autoremove_preview_details i (err e) =
    colored color_red (codes "autoremove: failed to preview packages to be removed") ∷ []
autoremove_preview_details i (ok []) =
    colored color_blue (
      (if i.upgrade.will_run
        then codes
            "autoremove: no packages would be removed (current state; may change after upgrade)"
        else codes "autoremove: no packages would be removed (no-op)")
      ++ because i.autoremove)
    ∷ []
autoremove_preview_details i (ok (n ∷ l)) =
    colored color_green (
      (codes "autoremove: would remove "
        ++ (count (n ∷ l)
            ++ (codes " package(s)"
                ++ (when i.upgrade.will_run (codes " (may change after upgrade)")
                    ++ because i.autoremove)))))
    ∷ refusal_detail (codes "autoremove: ") (codes "autoremove would remove ")
        (undeclared i (n ∷ l))

unfoldable pub autoremove_details : PlanInputs → List Text
autoremove_details i =
    if not (may_run i.autoremove_mode)
    then []
    else if i.autoremove.will_run
    then autoremove_preview_details i i.autoremove_preview
    else colored color_dim ((codes "autoremove: skipped" ++ because i.autoremove)) ∷ []

unfoldable pub details_of : PlanInputs → List Text
details_of i =
    update_details i
    ++ (upgrade_details i ++ (install_details i ++ (purge_details i ++ autoremove_details i)))

abbrev upgrade_part : PlanInputs → List Text → Text
upgrade_part i [] =
    codes "upgrade installed packages "
    ++ (if i.update.will_run
        then colored color_yellow (codes "(none currently; may change after update)")
        else colored color_green (codes "(none)"))
upgrade_part i (n ∷ l) = (codes "upgrade " ++ (count (n ∷ l) ++ codes " package(s)"))

abbrev autoremove_part : PlanInputs → List Text → Text
autoremove_part i [] =
    if i.upgrade.will_run
    then codes "autoremove "
      ++ colored color_yellow (codes "(none currently; may change after upgrade)")
    else codes "autoremove unused packages (no packages to remove)"
autoremove_part i (n ∷ l) =
    (codes "autoremove "
      ++ (count (n ∷ l)
          ++ (codes " unused package(s)"
              ++ when i.upgrade.will_run (codes " (may change after upgrade)"))))

abbrev unless_nil : List Text → Text → List Text
unless_nil [] t = []
unless_nil (n ∷ l) t = t ∷ []

abbrev only_if : Bool → Text → List Text
only_if true t = t ∷ []
only_if false t = []

unfoldable pub parts_of : PlanInputs → List Text
parts_of i =
    let c = changes i in
    only_if i.update.will_run (codes "update package index")
    ++ (only_if i.upgrade.will_run (upgrade_part i c.upgrade)
        ++ (unless_nil c.install (codes "install: " ++ join c.install (codes ", "))
            ++ (unless_nil c.install_deps
                  ((codes "install " ++ (count c.install_deps ++ codes " dependency package(s)")))
                ++ (unless_nil c.purge (codes "purge: " ++ join c.purge (codes ", "))
                    ++ (unless_nil c.purge_deps (
                          (codes "remove "
                            ++ (count c.purge_deps ++ codes " package(s) pulled in by the purge")))
                        ++ only_if i.autoremove.will_run (autoremove_part i c.autoremove))))))

abbrev upper_first : Text → Text
upper_first [] = []
upper_first (c ∷ s) = (if leb b'a' c && leb c b'z' then c - 32 else c) ∷ s

unfoldable pub packages_sentence : List Text → Text
packages_sentence [] = []
packages_sentence (p ∷ parts) = upper_first (join (p ∷ parts) (codes "; "))

abbrev summary_of : PlanInputs → Extent → Text
summary_of i nothing =
    codes
      "packages step: no-op (no update/upgrade/install/purge/autoremove specified or no changes required)"
summary_of i only_index =
    codes
      "packages step: update package index (install/upgrade/purge/autoremove currently no-op; may change after update)"
summary_of i some_change = codes "packages step: " ++ join (parts_of i) (codes "; ")

abbrev operator_summary_of : PlanInputs → Extent → Text
operator_summary_of i nothing = codes "Package state already matches the requested policy"
operator_summary_of i only_index =
    codes
      "Refresh package metadata; install, upgrade, purge, and autoremove decisions may change after the update"
operator_summary_of i some_change = packages_sentence (parts_of i)

abbrev pub changes_something : Extent → Bool
changes_something nothing = false
changes_something e = true

unfoldable pub render_plan : PlanInputs → PlanResult
render_plan i = record {
  summary = summary_of i (extent i);
  details = details_of i;
  diff = diff_of i;
  will_change = changes_something (extent i);
  operator_summary = operator_summary_of i (extent i);
  highlights = highlights i;
  rollback_fidelity = plan_rollback_fidelity i;
}
