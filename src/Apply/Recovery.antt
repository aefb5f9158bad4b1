-- ===== src/Apply/Recovery.antt =====
-- A run that reports a completed automatic rollback has reverted its steps, whether a step failed
-- or the run was interrupted.
use hardline.Base.{
  Text, ◌≡◌, refl, Bool, true, false, Option, none, some, List, [], ◌∷◌, Result, ok, err, inl, inr,
  is_nil, Map, Bool-cases,
}
use hardline.Base.Exec.{Exec, ◌>>◌, continue}
use hardline.Pluginapi.Host.{Fault}
use hardline.Pluginapi.Registry.{Step, ActionFile}
use hardline.Rollback.Conflicts.{RollbackError, rollback_steps}
use hardline.Rollback.Persist.{JournalError, save_last}
use hardline.Rollback.Automatic.{AllReverted, rollback_steps-Runs}
use hardline.Rollback.Command.{Env}
use hardline.Apply.Step.{Run, StepError, on_world, execute_step}
use hardline.Apply.Run.{
  RunError, step_rolled_back, interrupted_rolled_back, interrupted_result, step_outcome, on_poll,
  mark_interrupted, abort, abort_if_cancelled, after_step, apply_step, apply_steps, apply_profile,
}

-- The errors that speak of a completed automatic rollback.
abbrev pub claims_rollback : RunError → Bool
claims_rollback (step_rolled_back id e) = true
claims_rollback (interrupted_rolled_back f saved) = true
claims_rollback _ = false

abbrev pub claims : Result RunError (Unit {0}) → Bool
claims (ok x) = false
claims (err e) = claims_rollback e

step_outcome-claims :
    (id : Text) (e : StepError) (r : Result RollbackError (Unit {0}))
    → claims (step_outcome id e r) ≡ true
    → r ≡ ok tt
step_outcome-claims id e (ok x) h = refl
step_outcome-claims id e (err r) h = absurd (cc)

interrupted_result-claims :
    (f : Fault) (saved : Result JournalError (Unit {0})) (r : Result RollbackError (Unit {0}))
    → claims (interrupted_result f saved r) ≡ true
    → r ≡ ok tt
interrupted_result-claims f saved (ok x) h = refl
interrupted_result-claims f saved (err r) h = absurd (cc)

module _ {C W : Type 0} (env : Env C W) (overrides : Map Text) (poll : W → Option Fault × W) where
  -- A run that claims a completed rollback has reverted every step in its journal.
  abbrev Kept : Result RunError (Unit {0}) × Run W → Type 0
  Kept out = claims out.0 ≡ true → AllReverted env.plugins out.1.journal.steps out.1.world

  Kept-then :
      (m k : Exec (Run W) RunError (Unit {0}))
      → ((s : Run W) → Kept (m s))
      → ((s : Run W) → Kept (k s))
      → (s : Run W) → Kept ((m >> k) s)
  Kept-then m k km kk s = go (m s).0 (m s).1 (km s)
    where
      go : (r : Result RunError (Unit {0})) (t : Run W) → Kept (r, t) → Kept (continue r (λ _. k) t)
      go (ok x) t h = kk t
      go (err e) t h = h

  reverted :
      (s : Run W)
      → (rollback_steps env.plugins env.ensure_sudo s.journal.steps s.world).0 ≡ ok tt
      → AllReverted env.plugins s.journal.steps
          (rollback_steps env.plugins env.ensure_sudo s.journal.steps s.world).1
  reverted s h =
      let (u, _, runs) =
        rollback_steps-Runs env.plugins env.ensure_sudo s.journal.steps s.world h in
      (u, runs)

  abort-Kept : (f : Fault) (s : Run W) → Kept (abort env overrides f s)
  unfolding abort
  abort-Kept f s = elim (Bool-cases (is_nil s.journal.steps)) [
    | inl e ↦ rw e (λ h. absurd (cc))
    | inr e ↦ rw e (λ h.
        reverted
          (on_world
            (save_last env.codec env.disk env.state_root (mark_interrupted env overrides s).journal)
            (mark_interrupted env overrides s)).1
          (interrupted_result-claims f _ _ h))
  ]

  after_step-Kept :
      (id : Text) (r : Result StepError (Unit {0})) (s : Run W)
      → Kept (after_step env overrides poll id r s)
  unfolding after_step
  after_step-Kept id (ok x) s h = absurd (cc)
  after_step-Kept id (err e) s h = reverted s (step_outcome-claims id e _ h)

  abort_if_cancelled-Kept : (s : Run W) → Kept (abort_if_cancelled env overrides poll s)
  unfolding abort_if_cancelled
  abort_if_cancelled-Kept s = polled (poll s.world).0 (record s { world = (poll s.world).1 })
    where
      polled : (c : Option Fault) (t : Run W) → Kept (on_poll env overrides poll c t)
      polled none t h = absurd (cc)
      polled (some f) t h = abort-Kept f t h

  abbrev step_run : Step C → Exec (Run W) RunError (Unit {0})
  step_run step s =
      let (r, t) = execute_step env overrides step s in after_step env overrides poll step.id r t

  apply_step-Kept : (step : Step C) (s : Run W) → Kept (apply_step env overrides poll step s)
  unfolding apply_step
  apply_step-Kept step =
      Kept-then (abort_if_cancelled env overrides poll) _ abort_if_cancelled-Kept (
        Kept-then (step_run step) (abort_if_cancelled env overrides poll)
          (λ s.
            after_step-Kept step.id (execute_step env overrides step s).0
              (execute_step env overrides step s).1)
          abort_if_cancelled-Kept)

  apply_steps-Kept : (l : List (Step C)) (s : Run W) → Kept (apply_steps env overrides poll l s)
  unfolding apply_steps
  apply_steps-Kept [] s h = absurd (cc)
  apply_steps-Kept (step ∷ l) s h =
      Kept-then (apply_step env overrides poll step) (apply_steps env overrides poll l)
        (apply_step-Kept step) (apply_steps-Kept l) s h

  -- A run over a profile that ends with the report of a completed automatic rollback, after a
  -- failed step or an interruption, has reverted all steps in its journal: every object of the first
  -- capture of a step that changed or reloaded something, but for runtime policies and steps of mode
  -- noop, was handed to its plugin's `Rollback`, the steps and objects last first and steps with
  -- services at the end; every call succeeded on the world that the one before had left, and the last
  -- one left the world at the end of the run.
  pub apply_profile-reverts :
      (files : List (ActionFile C)) (s : Run W)
      → claims (apply_profile env overrides poll files s).0 ≡ true
      → AllReverted env.plugins
          (apply_profile env overrides poll files s).1.journal.steps
          (apply_profile env overrides poll files s).1.world
  unfolding apply_profile
  apply_profile-reverts [] s h = absurd (cc)
  apply_profile-reverts (af ∷ rest) s h =
      Kept-then (apply_steps env overrides poll af.steps) (apply_profile env overrides poll rest)
        (apply_steps-Kept af.steps) (apply_profile-reverts rest) s h
