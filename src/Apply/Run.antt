-- ===== src/Apply/Run.antt =====
-- internals/apply/apply.go: `applyProfile`, the loop over the steps, and `abortIfCancelled`. Whether
-- the context is cancelled is asked of the world at each poll. The progress lines are output only.
use hardline.Base.{
  ℕ, ◌+◌, Text, Option, none, some, List, [], ◌∷◌, Result, ok, err, if◌then◌else◌, Map, length,
  is_nil,
}
use hardline.Base.Exec.{Exec, ◌>>◌}
use hardline.Pluginapi.Host.{Fault}
use hardline.Pluginapi.Registry.{Step, ActionFile}
use hardline.Rollback.Journal.{interrupted}
use hardline.Rollback.Persist.{JournalError, save_last}
use hardline.Rollback.Conflicts.{RollbackError, rollback_steps}
use hardline.Rollback.Command.{Env}
use hardline.Apply.Step.{Run, StepError, on_world, execute_step}

pub data RunError : Type 0 where
  -- a step failed, and the automatic rollback did or did not complete
  step_rolled_back : Text → StepError → RunError
  step_not_rolled_back : Text → StepError → RollbackError → RunError
  -- the run was interrupted, with the outcome of the journal's save
  interrupted_before : Fault → Result JournalError (Unit {0}) → RunError
  interrupted_rolled_back : Fault → Result JournalError (Unit {0}) → RunError
  interrupted_not_rolled_back : Fault → Result JournalError (Unit {0}) → RollbackError → RunError

unfoldable pub count_apply_steps : {C : Type 0} → List (ActionFile C) → ℕ
count_apply_steps [] = 0
count_apply_steps (af ∷ rest) = length af.steps + count_apply_steps rest

abbrev pub interrupted_result :
    Fault
    → Result JournalError (Unit {0})
    → Result RollbackError (Unit {0})
    → Result RunError (Unit {0})
interrupted_result f saved (ok x) = err (interrupted_rolled_back f saved)
interrupted_result f saved (err e) = err (interrupted_not_rolled_back f saved e)

abbrev pub step_outcome :
    Text → StepError → Result RollbackError (Unit {0}) → Result RunError (Unit {0})
step_outcome id e (ok x) = err (step_rolled_back id e)
step_outcome id e (err r) = err (step_not_rolled_back id e r)

module _ {C W : Type 0} (env : Env C W) (overrides : Map Text) where
  -- runRollbackStep over the journal in hand.
  abbrev pub roll_back : Exec (Run W) RollbackError (Unit {0})
  roll_back s = on_world (rollback_steps env.plugins env.ensure_sudo s.journal.steps) s

  abbrev pub mark_interrupted : Run W → Run W
  mark_interrupted s = record s { journal = record s.journal { status = interrupted } }

  -- The branch of `abortIfCancelled` for a cancelled context.
  unfoldable pub abort : Fault → Exec (Run W) RunError (Unit {0})
  abort f s =
      let marked = mark_interrupted s in
      let (saved, t) =
        on_world (save_last env.codec env.disk env.state_root marked.journal) marked in
      let (rolled, u) = roll_back t in
      if is_nil t.journal.steps
      then (err (interrupted_before f saved), t)
      else (interrupted_result f saved rolled, u)

  module _ (poll : W → Option Fault × W) where
    abbrev pub on_poll : Option Fault → Exec (Run W) RunError (Unit {0})
    on_poll none s = (ok tt, s)
    on_poll (some f) s = abort f s

    unfoldable pub abort_if_cancelled : Exec (Run W) RunError (Unit {0})
    abort_if_cancelled s = let (c, w) = poll s.world in on_poll c (record s { world = w })

    -- A step that fails is followed by the automatic rollback.
    unfoldable pub after_step :
        Text → Result StepError (Unit {0}) → Exec (Run W) RunError (Unit {0})
    after_step id (ok x) s = (ok tt, s)
    after_step id (err e) s = let (r, t) = roll_back s in (step_outcome id e r, t)

    unfoldable pub apply_step : Step C → Exec (Run W) RunError (Unit {0})
    apply_step step = do
      abort_if_cancelled
      (λ s. let (r, t) = execute_step env overrides step s in after_step step.id r t)
      abort_if_cancelled

    unfoldable pub apply_steps : List (Step C) → Exec (Run W) RunError (Unit {0})
    apply_steps [] = λ s. (ok tt, s)
    apply_steps (step ∷ rest) = apply_step step >> apply_steps rest

    unfoldable pub apply_profile : List (ActionFile C) → Exec (Run W) RunError (Unit {0})
    apply_profile [] = λ s. (ok tt, s)
    apply_profile (af ∷ rest) = apply_steps af.steps >> apply_profile rest
