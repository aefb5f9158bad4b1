-- ===== src/Plugins/Packages/Snapshot.antt =====
-- internals/plugins/packages/backend.go: `capture`, `restore` and `conflict`, and the handlers
-- `Rollback` and `DetectConflict` around the last two.
use hardline.Base.{
  Text, codes, Bool, true, false, not, ◌&&◌, ◌||◌, Option, none, some, List, [], ◌∷◌, ◌++◌, ◌==◌,
  Result, ok, err, is_ok, if◌then◌else◌, is_nil, trim_space, quoted,
}
use hardline.Base.Exec.{Exec, ◌>>=◌, ◌>>◌, pure, fail, lift, wrapping}
use hardline.Pluginapi.Host.{Host}
use hardline.Pluginapi.Records.{
  PackageState, CaptureResult, ObjectRecord, object_package, RollbackMode, mode_deterministic,
  mode_best_effort, mode_irreversible,
}
use hardline.Plugins.Packages.{Spec}
use hardline.Plugins.Packages.Names.{member, unexpected_removals}
use hardline.Plugins.Packages.Validate.{validate_names}
use hardline.Plugins.Packages.Exec.{append_packages, targets, capture_notes, may_run}
use hardline.Plugins.Packages.Backend.{
  Backend, PackageError, PkgFound, PackagesPreviewFunc, capture_failed, bad_list, name_empty,
  missing_snapshot, wrong_kind, removal_preview_failed, refuse_removal, removal_failed,
  reinstall_failed, QueryError,
}

abbrev pub package_record : PackageState → ObjectRecord
package_record p = record {
  kind = object_package;
  file = none;
  file_meta = none;
  service = none;
  pkg = some p;
  runtime_policy = none;
  message = [];
}

unfoldable pub captured_rollback_mode : Spec → Bool → RollbackMode
captured_rollback_mode s purges_installed =
    if purges_installed
    then mode_irreversible
    else if not (is_nil s.install) || (may_run s.upgrade || may_run s.autoremove)
    then mode_best_effort
    else mode_deterministic

-- The record of a name, and whether the purge takes an installed package.
abbrev pub record_of : List Text → List Text → Text → PkgFound → ObjectRecord
record_of install purge name f = package_record (record {
  name = name;
  was_installed = f.installed;
  version = f.version;
  pin_spec = f.pin;
  requested_install = member name install;
  requested_purge = member name purge;
})

abbrev bool_text : Bool → Text
bool_text true = codes "true"
bool_text false = codes "false"

-- The conflict of a recorded state with what a query answers.
unfoldable pub state_conflict : Text → PackageState → PkgFound → List Text
state_conflict name p f =
    if not (if f.installed then p.was_installed else not p.was_installed)
    then (codes "package "
        ++ (quoted name
            ++ (codes ": installed="
                ++ (bool_text f.installed
                    ++ (codes " but journal recorded installed="
                        ++ (bool_text p.was_installed
                            ++ codes " after apply (changed since apply)"))))))
      ∷ []
    else if (f.installed && p.was_installed)
        && (not (is_nil p.version) && (not (is_nil f.version) && not (f.version == p.version)))
    then (codes "package "
        ++ (quoted name
            ++ (codes ": version is "
                ++ (quoted f.version
                    ++ (codes " but journal recorded "
                        ++ (quoted p.version ++ codes " after apply (upgraded since apply)"))))))
      ∷ []
    else []

abbrev pub conflict_with : Text → PackageState → Result QueryError PkgFound → List Text
conflict_with name p (err e) =
    (codes "package " ++ (quoted name ++ codes ": cannot read current state")) ∷ []
conflict_with name p (ok f) = state_conflict name p f

module _ {W : Type 0} (b : Backend W) (host : Host W) where
  -- The loop over the names: the records, and whether some declared purge is installed.
  unfoldable pub capture_names :
      List Text → List Text → List Text → List Text → Exec W PackageError (List ObjectRecord × Bool)
  capture_names install purge declared [] = pure ([], false)
  capture_names install purge declared (name ∷ rest) = do
    found ← wrapping capture_failed (b.query host name)
    later ← capture_names install purge declared rest
    pure (
      record_of install purge name found ∷ later.0,
      (member name declared && found.installed) || later.1,
    )

  abbrev pub captured : Spec → List ObjectRecord × Bool → CaptureResult
  captured s r = record {
    rollback_mode = captured_rollback_mode s r.1;
    objects = r.0;
    notes = capture_notes s.update s.upgrade s.autoremove;
    reload = none;
  }

  unfoldable pub capture : Spec → Exec W PackageError CaptureResult
  capture s = do
    r ←
        (let t = targets s.install (s.purge ++ s.purge_also_removes) in
          capture_names t.install t.purge (targets [] s.purge).purge t.names)
    pure (captured s r)

  abbrev pub rollback_preview : PackagesPreviewFunc W
  rollback_preview = elim b.previews.rollback_remove [
    | none ↦ b.previews.purge
    | some preview ↦ preview
  ]

  abbrev pub rollback_remove_command : Text
  rollback_remove_command =
      if is_nil b.commands.rollback_remove then b.commands.purge else b.commands.rollback_remove

  abbrev pub guard_removal : Text → List Text → Result PackageError (Unit {0})
  guard_removal name preview =
      let extra = unexpected_removals (name ∷ []) preview in
      if is_nil extra then ok tt else err (refuse_removal name extra)

  unfoldable pub remove_installed : Text → Exec W PackageError (Unit {0})
  remove_installed name = do
    preview ← wrapping removal_preview_failed (rollback_preview host (name ∷ []))
    lift (guard_removal name preview)
    wrapping (removal_failed name)
        (host.run_root (append_packages rollback_remove_command (name ∷ [])))

  abbrev pub reinstall_named : Text → Exec W PackageError (Unit {0})
  reinstall_named name =
      wrapping (reinstall_failed name)
        (host.run_root (append_packages b.commands.install (name ∷ [])))

  -- The recorded version first, if the pattern takes its pin; then any version.
  unfoldable pub reinstall : Text → Text → Exec W PackageError (Unit {0})
  reinstall name pin w =
      if not (is_nil pin) && b.pin_pattern pin
      then (let (r, w') = host.run_root (append_packages b.commands.install (pin ∷ [])) w in
          if is_ok r then (ok tt, w') else reinstall_named name w')
      else reinstall_named name w

  abbrev pub name_checked : Text → Result PackageError (Unit {0})
  name_checked name = elim (validate_names b.name_pattern (name ∷ [])) [
    | err e ↦ err (bad_list e)
    | ok x ↦ ok tt
  ]

  unfoldable pub restore : PackageState → Exec W PackageError (Unit {0})
  restore p =
      let name = trim_space p.name in
      if is_nil name then fail name_empty else (do
        lift (name_checked name)
        (if p.requested_install && not p.was_installed then remove_installed name else pure tt)
        (if p.requested_purge && p.was_installed then reinstall name p.pin_spec else pure tt))

  unfoldable pub conflict : PackageState → W → List Text × W
  conflict p w =
      let name = trim_space p.name in
      if is_nil name
      then ([], w)
      else (let (r, w') = b.query host name w in (conflict_with name p r, w'))

  abbrev rollback_package : Option PackageState → Exec W PackageError (Unit {0})
  rollback_package none = fail missing_snapshot
  rollback_package (some p) = restore p

  unfoldable pub rollback : ObjectRecord → Exec W PackageError (Unit {0})
  rollback o = elim o.kind [ object_package ↦ rollback_package o.pkg | _ ↦ fail wrong_kind ]

  unfoldable pub detect_conflict : ObjectRecord → W → List Text × W
  detect_conflict o w = elim o.kind [
    | object_package ↦ (elim o.pkg [ none ↦ ([], w) | some p ↦ conflict p w ])
    | _ ↦ ([], w)
  ]
