-- ===== src/Plugins/FileMeta/Preview.antt =====
-- internals/plugins/filemeta/execution.go: `Plan`.
use hardline.Base.{
  Text, codes, Bool, true, false, not, ◌&&◌, List, [], ◌∷◌, ◌++◌, ◌==◌, Result, ok, err,
  if◌then◌else◌, is_nil, quoted,
}
use hardline.Base.Exec.{Exec, ◌>>=◌, lift}
use hardline.Pluginapi.Host.{Host}
use hardline.Pluginapi.Records.{FileMetaSnapshot, PlanResult, mode_deterministic, unknown_mode}
use hardline.Plugins.FileMeta.{Spec, FileMetaError, target_of, is_set, manages_attrs}
use hardline.Plugins.FileMeta.Metadata.{Desired, desired, snapshot_file_meta}

abbrev colored : Text → Text → Text
colored color t = (27 ∷ color) ++ (t ++ (27 ∷ codes "[0m"))

abbrev metadata_text : Text → Text → Text → Text → Text
metadata_text mode owner group attrs =
    (codes "mode="
      ++ (mode
          ++ (codes " owner="
              ++ (owner ++ (codes " group=" ++ (group ++ (codes " attrs=" ++ quoted attrs)))))))

abbrev pub row_if : Bool → Text → List Text
row_if true t = t ∷ []
row_if false t = []

unfoldable pub diff_of : Spec → Text → FileMetaSnapshot → Desired → List Text
diff_of s target cur d =
    row_if (is_set s.mode && not (d.mode == cur.mode))
      ((codes "mode " ++ (quoted target ++ (codes ": " ++ (cur.mode ++ (codes " -> " ++ d.mode))))))
    ++ (row_if (is_set s.owner && not (d.owner == cur.owner)) (
          (codes "owner "
            ++ (quoted target ++ (codes ": " ++ (cur.owner ++ (codes " -> " ++ d.owner))))))
        ++ (row_if (is_set s.group && not (d.group == cur.group)) (
              (codes "group "
                ++ (quoted target ++ (codes ": " ++ (cur.group ++ (codes " -> " ++ d.group))))))
            ++ row_if (manages_attrs s && not (d.attrs == cur.attrs)) (
                (codes "attrs "
                  ++ (quoted target
                      ++ (codes ": " ++ (quoted cur.attrs ++ (codes " -> " ++ quoted d.attrs))))))))

-- The report on a path that is not there promises no rollback.
unfoldable pub absent_plan : Text → PlanResult
absent_plan target = record {
  summary =
      (codes "file_meta step: target " ++ (quoted target ++ codes " is absent (apply will fail)"));
  details =
      colored (codes "[31m") ((codes "target " ++ (quoted target ++ codes " does not exist"))) ∷ [];
  diff = [];
  will_change = false;
  operator_summary =
      quoted target ++ codes " does not exist; file_meta cannot stamp metadata on a missing path";
  highlights =
      ((codes "target "
        ++ (quoted target
            ++ codes " does not exist; apply will fail (file_meta never creates files)")))
      ∷ [];
  rollback_fidelity = unknown_mode [];
}

unfoldable pub preview : Spec → Text → FileMetaSnapshot → Desired → PlanResult
preview s target cur d =
    let diff = diff_of s target cur d in
    record {
      summary =
          if is_nil diff
          then (codes "file_meta step: no change required for "
              ++ (quoted target ++ codes " (metadata already matches)"))
          else (codes "file_meta step: re-stamp metadata on " ++ quoted target);
      details =
          colored (codes "[33m")
            ((codes "current: " ++ metadata_text cur.mode cur.owner cur.group cur.attrs))
          ∷ (colored (codes "[32m")
                ((codes "desired: " ++ metadata_text d.mode d.owner d.group d.attrs))
              ∷ []);
      diff = diff;
      will_change = not (is_nil diff);
      operator_summary =
          if is_nil diff
          then quoted target ++ codes " already has the desired metadata"
          else (codes "Set metadata on "
              ++ (quoted target
                  ++ (codes " (" ++ (metadata_text d.mode d.owner d.group d.attrs ++ codes ")"))));
      highlights = [];
      rollback_fidelity = mode_deterministic;
    }

abbrev pub report_desired :
    Spec → Text → FileMetaSnapshot → Result FileMetaError Desired → Result FileMetaError PlanResult
report_desired s target cur (err e) = err e
report_desired s target cur (ok d) = ok (preview s target cur d)

abbrev pub report : Spec → Text → FileMetaSnapshot → Result FileMetaError PlanResult
report s target cur =
    if cur.existed then report_desired s target cur (desired s cur) else ok (absent_plan target)

module _ {W : Type 0} (host : Host W) where
  unfoldable pub plan : Spec → Exec W FileMetaError PlanResult
  plan s = do
    target ← lift (target_of s.path)
    cur ← snapshot_file_meta host target
    lift (report s target cur)
