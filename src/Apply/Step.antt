-- ===== src/Apply/Step.antt =====
-- internals/apply/apply.go, steps.go and rollback_journal.go: `executeStep`, which captures, keeps
-- the journal, applies, and captures again. `Apply` always passes a journal, so the branches for
-- none are left out; so is the host that a context lacks without a client.
use hardline.Base.{Text, Bool, List, [], ◌∷◌, ◌++◌, ok, Map, put}
use hardline.Base.Exec.{Exec, ◌>>=◌, ◌>>◌, wrapping, lift, wrap_result}
use hardline.Pluginapi.Host.{Fault}
use hardline.Pluginapi.Records.{CaptureResult}
use hardline.Pluginapi.Keys.{captures_differ}
use hardline.Pluginapi.Registry.{Step, RegistryError, plugin_name, require_step_plugin}
use hardline.Rollback.Journal.{Journal, StepRecord, new_step_record, set_after}
use hardline.Rollback.Persist.{JournalError, save_last}
use hardline.Rollback.Command.{Env}

-- What a run changes: the journal in hand, the steps that have changed, and the world.
pub record Run (W : Type 0) : Type 0 where
  pub journal : Journal
  pub changes : Map Bool
  pub world : W

pub data StepError : Type 0 where
  no_plugin : RegistryError → StepError
  capture_failed capture_after_failed apply_failed : Fault → StepError
  persist_failed : JournalError → StepError

abbrev pub capture_after_error : StepError → StepError
capture_after_error (capture_failed f) = capture_after_failed f
capture_after_error e = e

module _ {W E A : Type 0} where
  -- An action on the world alone.
  abbrev pub on_world : Exec W E A → Exec (Run W) E A
  on_world m s = let (r, w) = m s.world in (r, record s { world = w })

abbrev pub map_last : (StepRecord → StepRecord) → List StepRecord → List StepRecord
map_last f [] = []
map_last f (s ∷ []) = f s ∷ []
map_last f (s ∷ (t ∷ rest)) = s ∷ map_last f (t ∷ rest)

module _ {C W : Type 0} (env : Env C W) (overrides : Map Text) where
  -- captureStepRecordWithRegistry
  unfoldable pub capture_step_record : Step C → Exec W StepError CaptureResult
  capture_step_record step = do
    p ← lift (wrap_result no_plugin (require_step_plugin env.plugins step))
    wrapping capture_failed (p.capture overrides step)

  -- handleStepWithRegistry
  unfoldable pub handle_step : Map Bool → Step C → Exec W StepError (Unit {0})
  handle_step changes step = do
    p ← lift (wrap_result no_plugin (require_step_plugin env.plugins step))
    wrapping apply_failed (p.apply overrides changes step)

  -- Saves the journal in hand on the runner.
  unfoldable pub persist : Exec (Run W) StepError (Unit {0})
  persist s =
      on_world (wrapping persist_failed (save_last env.codec env.disk env.state_root s.journal)) s

  abbrev pub set_steps : (List StepRecord → List StepRecord) → Exec (Run W) StepError (Unit {0})
  set_steps f s = (ok tt, record s { journal = record s.journal { steps = f s.journal.steps } })

  abbrev pub mark_change : Text → Bool → Exec (Run W) StepError (Unit {0})
  mark_change id changed s = (ok tt, record s { changes = put id changed s.changes })

  -- The first part: the record is in the journal, and the journal on the runner's disk, before the
  -- plugin may change anything.
  unfoldable pub journal_before : Step C → Exec (Run W) StepError CaptureResult
  journal_before step = do
    before ← on_world (capture_step_record step)
    set_steps (λ l. l ++ (new_step_record step.id (plugin_name step) before ∷ []))
    persist
    (λ s. (ok before, s))

  unfoldable pub journal_after : Step C → CaptureResult → Exec (Run W) StepError (Unit {0})
  journal_after step before = do
    after ← on_world (wrapping capture_after_error (capture_step_record step))
    mark_change step.id (captures_differ before after)
    set_steps (map_last (λ r. set_after r after))
    persist

  unfoldable pub execute_step : Step C → Exec (Run W) StepError (Unit {0})
  execute_step step = do
    before ← journal_before step
    (λ s. on_world (handle_step s.changes step) s)
    journal_after step before
