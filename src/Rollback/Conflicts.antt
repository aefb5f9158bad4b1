-- ===== src/Rollback/Conflicts.antt =====
-- internals/rollback/rollback.go: `preflightRollbackConflicts`, the checks before the walk, and
-- `RollbackSteps`, the automatic rollback of a failed run.
use hardline.Base.{
  Text, Bool, false, not, ◌||◌, Option, none, some, List, [], ◌∷◌, ◌++◌, reverse, Result, ok, err,
  is_nil, is_some, if◌then◌else◌, Map, lookup,
}
use hardline.Base.Exec.{Exec, ◌>>◌, wrapping}
use hardline.Pluginapi.Host.{Fault}
use hardline.Pluginapi.Records.{ObjectRecord}
use hardline.Pluginapi.Keys.{object_key, by_key}
use hardline.Pluginapi.Registry.{Plugin, lookup_plugin}
use hardline.Rollback.Journal.{StepRecord, rollback_step_applies, is_runtime_policy}
use hardline.Rollback.Execute.{Degraded, RevertError, Walk, is_noop, execute_rollback_steps}

pub data RollbackError : Type 0 where
  sudo_preflight_failed : Fault → RollbackError
  plugin_not_registered : Text → Text → RollbackError
  conflicts_found : List (Text × List Text) → RollbackError
  walk_failed : RevertError → RollbackError
  restored_degraded : List Degraded → RollbackError

abbrev no_conflicts : {W : Type 0} → W → List Text × W
no_conflicts w = ([], w)

abbrev more_conflicts : {W : Type 0} → List Text → (W → List Text × W) → W → List Text × W
more_conflicts cs next w = let (ds, w') = next w in (cs ++ ds, w')

module _ {C W : Type 0} where
  -- One round of the loop of `checkStepConflicts`, with what the object is paired with.
  unfoldable pub report_object : Plugin C W → ObjectRecord → (W → List Text × W) → W → List Text × W
  report_object p a next w = let (cs, w') = p.detect_conflict a w in more_conflicts cs next w'

  unfoldable pub check_object :
      Plugin C W → Option ObjectRecord → ObjectRecord → (W → List Text × W) → W → List Text × W
  unfolding report_object
  check_object p none a next w = report_object p a next w
  check_object p (some b) a next w =
      let (bs, w') = p.detect_conflict b w in
      if is_nil bs then next w' else report_object p a next w'

  unfoldable pub check_objects :
      Plugin C W → Map ObjectRecord → List ObjectRecord → W → List Text × W
  check_objects p before [] w = no_conflicts w
  check_objects p before (a ∷ rest) w =
      let skip = check_objects p before rest w in
      if is_runtime_policy a.kind
      then skip
      else check_object p (lookup (object_key a) before) a (check_objects p before rest) w

-- How `RollbackSteps` reports the walk.
abbrev pub walk_result : {W : Type 0} → Walk W → Result RollbackError (Unit {0}) × W
walk_result r = elim r.error [
  | some e ↦ (err (walk_failed e), r.world)
  | none ↦ (if is_nil r.degraded then ok tt else err (restored_degraded r.degraded), r.world)
]

module _ {C W : Type 0} (plugins : List (Plugin C W)) where
  unfoldable pub check_step_conflicts : StepRecord → Bool → W → List Text × W
  check_step_conflicts step resuming w = elim (lookup_plugin plugins step.type) [
    | none ↦ ([], w)
    | some p ↦ check_objects p (if resuming then by_key step.before [] else []) step.after w
  ]

  -- The first loop: the first step from the end that needs a plugin and has none.
  unfoldable pub missing_plugin : List StepRecord → List StepRecord → Option StepRecord
  missing_plugin all [] = none
  missing_plugin all (s ∷ rest) =
      if not (rollback_step_applies s all) || is_noop s.rollback_mode
      then missing_plugin all rest
      else if is_some (lookup_plugin plugins s.type)
      then missing_plugin all rest
      else some s

  -- The second loop: the report, one entry for each step in conflict.
  unfoldable pub conflict_report :
      List StepRecord → Bool → List StepRecord → W → List (Text × List Text) × W
  conflict_report all resuming [] w = ([], w)
  conflict_report all resuming (s ∷ rest) w =
      let skip = conflict_report all resuming rest w in
      if not (rollback_step_applies s all)
      then skip
      else let (cs, w') = check_step_conflicts s resuming w in
        let (report, w'') = conflict_report all resuming rest w' in
        ((if is_nil cs then report else (s.id, cs) ∷ report), w'')

  unfoldable pub preflight_rollback_conflicts :
      List StepRecord → Bool → Bool → Exec W RollbackError (Unit {0})
  preflight_rollback_conflicts steps force resuming w =
      elim (missing_plugin steps (reverse steps)) [
        | some s ↦ (err (plugin_not_registered s.id s.type), w)
        | none ↦
            let (report, w') = conflict_report steps resuming (reverse steps) w in
            (if is_nil report || force then ok tt else err (conflicts_found report), w')
      ]

  unfoldable pub rollback_steps :
      Exec W Fault (Unit {0}) → List StepRecord → Exec W RollbackError (Unit {0})
  rollback_steps ensure_sudo steps = do
    wrapping sudo_preflight_failed ensure_sudo
    preflight_rollback_conflicts steps false false
    (λ w. walk_result (execute_rollback_steps plugins steps w))
