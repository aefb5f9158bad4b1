-- ===== src/Rollback/Execute.antt =====
-- internals/rollback/rollback.go: the reverse walk over the steps of a journal. The progress lines
-- are output only and are left out; the world `W` is the host and whatever else a plugin touches.
use hardline.Base.{
  Text, Bool, true, false, not, Option, none, some, List, [], ◌∷◌, ◌++◌, reverse, Result, ok, err,
  if◌then◌else◌,
}
use hardline.Pluginapi.Host.{Fault}
use hardline.Pluginapi.Records.{
  ObjectRecord, RollbackMode, mode_best_effort, mode_noop, mode_irreversible,
}
use hardline.Pluginapi.Registry.{Plugin, lookup_plugin}
use hardline.Rollback.Journal.{
  StepRecord, rollback_step_applies, is_runtime_policy, step_has_service_objects,
}

pub data RevertError : Type 0 where
  unregistered : Text → Text → RevertError
  revert_failed : Fault → RevertError
  step_failed : Text → RevertError → RevertError

-- A line of the degraded list: the step, its type and the fault.
pub record Degraded : Type 0 where
  pub step_id : Text
  pub step_type : Text
  pub fault : Fault

-- `(degraded, err)` with the world that the walk leaves.
pub record Walk (W : Type 0) : Type 0 where
  pub degraded : List Degraded
  pub error : Option RevertError
  pub world : W

unfoldable pub tolerates_failed_revert : RollbackMode → Bool
tolerates_failed_revert mode_best_effort = true
tolerates_failed_revert mode_irreversible = true
tolerates_failed_revert _ = false

abbrev pub is_noop : RollbackMode → Bool
is_noop mode_noop = true
is_noop _ = false

module _ {W : Type 0} where
  abbrev pub after_note : List Degraded → Walk W → Walk W
  after_note notes r = record r { degraded = notes ++ r.degraded }

  -- Go on with `next` unless the walk has stopped, and keep what it has noted so far.
  abbrev pub then_walk : Walk W → (W → Walk W) → Walk W
  then_walk r next = elim r.error [ none ↦ after_note r.degraded (next r.world) | some e ↦ r ]

  -- What follows one call of the plugin's `Rollback`, with the rest of the loop as `next`.
  unfoldable pub after_revert : StepRecord → Result Fault (Unit {0}) → W → (W → Walk W) → Walk W
  unfolding tolerates_failed_revert
  after_revert step (ok _) w next = next w
  after_revert step (err f) w next =
      if tolerates_failed_revert step.rollback_mode
      then after_note (record { step_id = step.id; step_type = step.type; fault = f } ∷ []) (next w)
      else record { degraded = []; error = some (revert_failed f); world = w }

module _ {C W : Type 0} where
  -- The loop of `rollbackStepWithMode` over the objects that are left, last first.
  unfoldable pub revert_objects : Plugin C W → StepRecord → List ObjectRecord → W → Walk W
  revert_objects p step [] w = record { degraded = []; error = none; world = w }
  revert_objects p step (obj ∷ rest) w =
      let skip = revert_objects p step rest w in
      let call = p.rollback obj w in
      if is_runtime_policy obj.kind
      then skip
      else after_revert step call.0 call.1 (revert_objects p step rest)

module _ {C W : Type 0} (plugins : List (Plugin C W)) where
  unfoldable pub rollback_step_with_mode : StepRecord → W → Walk W
  rollback_step_with_mode step w =
      if is_noop step.rollback_mode
      then record { degraded = []; error = none; world = w }
      else elim (lookup_plugin plugins step.type) [
        | none ↦ record { degraded = []; error = some (unregistered step.id step.type); world = w }
        | some p ↦ revert_objects p step (reverse step.before) w
      ]

  unfoldable pub run_rollback_one_step : StepRecord → W → Walk W
  run_rollback_one_step step w =
      let r = rollback_step_with_mode step w in
      elim r.error [ none ↦ r | some e ↦ record r { error = some (step_failed step.id e) } ]

  -- The two loops of `executeRollbackSteps`. The first runs over the steps that are left, last
  -- first, and collects the steps with service objects; the second runs over those.
  unfoldable pub run_deferred : List StepRecord → W → Walk W
  run_deferred [] w = record { degraded = []; error = none; world = w }
  run_deferred (step ∷ rest) w = then_walk (run_rollback_one_step step w) (run_deferred rest)

  unfoldable pub run_first : List StepRecord → List StepRecord → List StepRecord → W → Walk W
  unfolding run_deferred
  run_first all [] deferred w = run_deferred deferred w
  run_first all (step ∷ rest) deferred w =
      let skip = run_first all rest deferred w in
      let defer = run_first all rest (deferred ++ (step ∷ [])) w in
      if not (rollback_step_applies step all)
      then skip
      else if step_has_service_objects step
      then defer
      else then_walk (run_rollback_one_step step w) (run_first all rest deferred)

  unfoldable pub execute_rollback_steps : List StepRecord → W → Walk W
  unfolding run_first
  execute_rollback_steps steps w = run_first steps (reverse steps) [] w
