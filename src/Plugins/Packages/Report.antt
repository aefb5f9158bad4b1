-- ===== src/Plugins/Packages/Report.antt =====
-- internals/plugins/packages/plan.go: what a plan reports. The lists of names that the report is built
-- from come first. A failed preview is told by its error alone, as the text of it is the host's.
use hardline.Base.{
  Text, codes, Bool, not, ◌&&◌, ◌||◌, List, [], ◌∷◌, ◌++◌, Result, ok, err, if◌then◌else◌, is_nil,
  any, select, map, join, quoted,
}
use hardline.Pluginapi.Records.{
  RollbackMode, mode_deterministic, mode_best_effort, mode_irreversible,
}
use hardline.Plugins.Packages.Ops.{Decision}
use hardline.Plugins.Packages.Names.{member, declared_name_set, unexpected_removals}
use hardline.Plugins.Packages.Exec.{may_run}
use hardline.Plugins.Packages.Backend.{PkgInfo, PreviewError}

-- A preview that was not asked for is the empty list.
abbrev pub Preview : Type 0
Preview = Result PreviewError (List Text)

pub record PlanInputs : Type 0 where
  pub update_mode : Text
  pub upgrade_mode : Text
  pub autoremove_mode : Text
  pub install_infos : List PkgInfo
  pub purge_infos : List PkgInfo
  pub update : Decision
  pub upgrade : Decision
  pub autoremove : Decision
  pub upgrade_preview : Preview
  pub install_preview : Preview
  pub purge_preview : Preview
  pub autoremove_preview : Preview
  pub purge_also_removes : List Text

abbrev pub color_red : Text
color_red = 27 ∷ codes "[31m"

abbrev pub color_green : Text
color_green = 27 ∷ codes "[32m"

abbrev pub color_yellow : Text
color_yellow = 27 ∷ codes "[33m"

abbrev pub color_blue : Text
color_blue = 27 ∷ codes "[34m"

abbrev pub color_dim : Text
color_dim = 27 ∷ codes "[2m"

abbrev pub color_reset : Text
color_reset = 27 ∷ codes "[0m"

unfoldable pub info_names : List PkgInfo → List Text
info_names infos = map (λ (i : PkgInfo). i.name) infos

abbrev packages_of : Preview → List Text
packages_of (ok l) = l
packages_of (err e) = []

-- The previewed names that the step does not name itself.
abbrev dependencies : List PkgInfo → Preview → List Text
dependencies [] p = []
dependencies (i ∷ infos) p =
    select (λ n. not (member n (declared_name_set (info_names (i ∷ infos))))) (packages_of p)

-- The names of each kind of change.
pub record Changes : Type 0 where
  pub install : List Text
  pub purge : List Text
  pub upgrade : List Text
  pub install_deps : List Text
  pub purge_deps : List Text
  pub autoremove : List Text

abbrev pub if_runs : Text → Decision → Preview → List Text
if_runs mode d p = if may_run mode && d.will_run then packages_of p else []

unfoldable pub changes : PlanInputs → Changes
changes i = record {
  install = info_names (select (λ (p : PkgInfo). not p.installed) i.install_infos);
  purge = info_names (select (λ (p : PkgInfo). p.installed) i.purge_infos);
  upgrade = if_runs i.upgrade_mode i.upgrade i.upgrade_preview;
  install_deps = dependencies i.install_infos i.install_preview;
  purge_deps = dependencies i.purge_infos i.purge_preview;
  autoremove = if_runs i.autoremove_mode i.autoremove i.autoremove_preview;
}

unfoldable pub undeclared : PlanInputs → List Text → List Text
undeclared i preview =
    unexpected_removals (info_names i.purge_infos ++ i.purge_also_removes) preview

unfoldable pub would_refuse : Text → List Text → Text
would_refuse before extra =
    before
    ++ (join extra (codes ", ")
        ++ codes
            ", which the step does not declare; apply will refuse until they are listed in purge_also_removes")

-- What a refused transaction says, once plain and once red.
abbrev purge_refusals : PlanInputs → List Text
purge_refusals i = elim i.purge_preview [
  | err e ↦ codes "cannot preview the purge transaction" ∷ []
  | ok l ↦
      if is_nil (undeclared i l)
      then []
      else would_refuse (codes "purge would also remove ") (undeclared i l) ∷ []
]

abbrev autoremove_refusals : PlanInputs → List Text
autoremove_refusals i = elim i.autoremove_preview [
  | err e ↦ codes "cannot preview autoremove packages" ∷ []
  | ok l ↦
      if is_nil (undeclared i l)
      then []
      else would_refuse (codes "autoremove would remove ") (undeclared i l) ∷ []
]

abbrev pub failed : Preview → Text → List Text
failed (err e) t = t ∷ []
failed (ok l) t = []

unfoldable pub highlights : PlanInputs → List Text
highlights i =
    (if may_run i.upgrade_mode && i.upgrade.will_run
      then failed i.upgrade_preview (codes "cannot preview package upgrades")
      else [])
    ++ ((if is_nil i.install_infos
          then []
          else failed i.install_preview (codes "cannot preview dependency installs"))
        ++ ((if is_nil i.purge_infos then [] else purge_refusals i)
            ++ (if may_run i.autoremove_mode && i.autoremove.will_run
                then autoremove_refusals i
                else [])))

abbrev pub rows : Text → Text → List Text → List Text
rows before after names = map (λ n. before ++ (quoted n ++ after)) names

unfoldable pub diff_of : PlanInputs → List Text
diff_of i =
    let c = changes i in
    (if i.update.will_run
      then codes "package index metadata: current -> refreshed from configured repositories" ∷ []
      else [])
    ++ (rows (codes "package ") (codes ": installed -> upgraded") c.upgrade
        ++ (rows (codes "package ") (codes ": absent -> installed") c.install
            ++ (rows (codes "package ") (codes ": absent -> installed (dependency)") c.install_deps
                ++ (rows (codes "package ") (codes ": installed -> purged") c.purge
                    ++ (rows (codes "package ")
                          (codes ": installed -> removed (pulled in by purge)") c.purge_deps
                        ++ rows (codes "package ") (codes ": installed -> removed by autoremove")
                            c.autoremove)))))

-- The three outcomes of a plan: nothing to do, only the index, and changes.
pub data Extent : Type 0 where
  nothing only_index some_change : Extent

unfoldable pub rest_idle : PlanInputs → Bool
rest_idle i =
    let c = changes i in
    (not i.upgrade.will_run || is_nil c.upgrade)
    && ((is_nil c.install && is_nil c.install_deps)
        && ((is_nil c.purge && is_nil c.purge_deps)
            && (not i.autoremove.will_run || is_nil c.autoremove)))

unfoldable pub extent : PlanInputs → Extent
extent i =
    if not i.update.will_run && rest_idle i
    then nothing
    else if i.update.will_run && rest_idle i
    then only_index
    else some_change

unfoldable pub plan_rollback_fidelity : PlanInputs → RollbackMode
plan_rollback_fidelity i =
    if any (λ (p : PkgInfo). p.installed) i.purge_infos
    then mode_irreversible
    else if i.upgrade.will_run || (i.autoremove.will_run || not (is_nil i.install_infos))
    then mode_best_effort
    else mode_deterministic
