-- ===== src/Rollback/Automatic.antt =====
-- The automatic rollback that reports success has reverted everything.
use hardline.Base.{ap, Result, ◌≡◌, false, List, ok, Option-cases, inl, inr, arith}
use hardline.Base.Exec.{Exec, wrapping, >>=-ok}
use hardline.Pluginapi.Host.{Fault}
use hardline.Pluginapi.Registry.{Plugin}
use hardline.Rollback.Journal.{StepRecord}
use hardline.Rollback.Execute.{Walk, execute_rollback_steps}
use hardline.Rollback.Order.{revert_order}
use hardline.Rollback.Restore.{Runs, IsClean, calls_of, execute_rollback_steps-Runs}
use hardline.Rollback.Conflicts.{
  RollbackError, sudo_preflight_failed, walk_result, preflight_rollback_conflicts, rollback_steps,
}

walk_result-IsClean :
    {W : Type 0} (r : Walk W)
    → (walk_result r).0 ≡ ok tt
    → IsClean r × ((walk_result r).1 ≡ r.world)
walk_result-IsClean r h = elim (Option-cases r.error) [
  | inl e ↦ (record { nothing_degraded = ground arith; no_error = e }, ground arith)
  | inr (x, e) ↦ absurd (ground arith)
]

module _ {C W : Type 0} (plugins : List (Plugin C W)) where
  -- All that a rollback of these steps hands to the plugins was handed over, and every call succeeded;
  -- the last one left the world at `v`.
  abbrev pub AllReverted : List StepRecord → W → Type 0
  AllReverted steps v = (u : W) × Runs plugins (calls_of (revert_order steps)) u v

  pub rollback_steps-Runs :
      (ensure_sudo : Exec W Fault (Unit {0})) (steps : List StepRecord) (w : W)
      → (rollback_steps plugins ensure_sudo steps w).0 ≡ ok tt
      → (v : W) × (preflight_rollback_conflicts plugins steps false false (ensure_sudo w).1
          ≡ (ok tt, v))
        × Runs plugins
            (calls_of (revert_order steps))
            v
            (rollback_steps plugins ensure_sudo steps w).1
  unfolding rollback_steps
  rollback_steps-Runs ensure_sudo steps w h =
      let (_, _, on) = >>=-ok (wrapping sudo_preflight_failed ensure_sudo) _ w tt h in
      let v = (ensure_sudo w).1 in
      let (_, passed, on') =
        >>=-ok (preflight_rollback_conflicts plugins steps false false)
          (λ _ u. walk_result (execute_rollback_steps plugins steps u)) v tt (rw on at h) in
      let u = (preflight_rollback_conflicts plugins steps false false v).1 in
      let (clean, world) =
        walk_result-IsClean (execute_rollback_steps plugins steps u) (rw on' at (rw on at h)) in
      (
        u,
        ap (λ (r : Result RollbackError (Unit {0})). (r, u)) passed,
        rw (on, on', world) (execute_rollback_steps-Runs plugins steps u clean),
      )
