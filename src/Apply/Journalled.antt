-- ===== src/Apply/Journalled.antt =====
-- What stands in the journal on the disk when a step's plugin is called.
use hardline.Base.{Text, ◌≡◌, [], ◌∷◌, ◌++◌, Result, ok, Map}
use hardline.Base.Exec.{Exec, ◌>>◌}
use hardline.Pluginapi.Records.{CaptureResult}
use hardline.Pluginapi.Registry.{Step, plugin_name}
use hardline.Rollback.Journal.{Journal, new_step_record}
use hardline.Rollback.Command.{Env}
use hardline.Apply.Step.{Run, StepError, on_world, handle_step, journal_after}

pub ok-injective :
    (a b : CaptureResult) → ◌≡◌ {A = Result StepError CaptureResult} (ok a) (ok b) → a ≡ b
ok-injective a b e = cc

module _ {C W : Type 0} (env : Env C W) (overrides : Map Text) where
  -- The journal in hand with the record of a step that was captured once.
  abbrev pub with_record : Step C → Run W → CaptureResult → Journal
  with_record step s before = record s.journal {
    steps = s.journal.steps ++ (new_step_record step.id (plugin_name step) before ∷ []);
  }

  -- What is left of a step behind its first capture and save: the plugin's call, then the rest.
  abbrev pub call_plugin : Step C → CaptureResult → Exec (Run W) StepError (Unit {0})
  call_plugin step before t =
      ((λ u. on_world (handle_step env overrides u.changes step) u)
          >> journal_after env overrides step before)
        t
