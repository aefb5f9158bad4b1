-- ===== src/Rollback/Safety.antt =====
-- A rollback that passes the preflight never stops for want of a plugin, and an automatic rollback
-- that is refused has changed nothing.
use hardline.Base.{
  subst, ◌≡◌, refl, Bool, true, false, ◌&&◌, ◌||◌, Option, none, some, List, [], ◌∷◌, ◌++◌, reverse,
  Result, ok, err, is_some, all, arith, Bool-cases, Option-cases, inl, inr,
}
use hardline.Base.Exec.{Exec}
use hardline.Pluginapi.Host.{Fault}
use hardline.Pluginapi.Records.{ObjectRecord}
use hardline.Pluginapi.Registry.{Plugin, lookup_plugin}
use hardline.Rollback.Journal.{StepRecord, is_runtime_policy}
use hardline.Rollback.Execute.{
  Walk, RevertError, unregistered, revert_failed, step_failed, is_noop, after_revert,
  revert_objects, rollback_step_with_mode, run_rollback_one_step, run_deferred,
  execute_rollback_steps,
}
use hardline.Rollback.Order.{
  revert_order-steps, now_steps, later_steps, revert_order, execute_rollback_steps-deferred,
}
use hardline.Rollback.Conflicts.{RollbackError, walk_failed, restored_degraded, rollback_steps}
use hardline.Rollback.Preflight.{AllReadOnly, plugins_known, preflight_rollback_conflicts-settled}

-- The error says that a plugin is not registered.
abbrev pub wants_plugin : RevertError → Bool
wants_plugin (unregistered id type) = true
wants_plugin (revert_failed f) = false
wants_plugin (step_failed id e) = wants_plugin e

abbrev pub stopped_for_plugin : Option RevertError → Bool
stopped_for_plugin none = false
stopped_for_plugin (some e) = wants_plugin e

module _ {W : Type 0} where
  after_revert-plugin :
      (s : StepRecord) (r : Result Fault (Unit {0})) (w : W) (next : W → Walk W)
      → ((v : W) → stopped_for_plugin (next v).error ≡ false)
      → stopped_for_plugin (after_revert s r w next).error ≡ false
  unfolding after_revert
  after_revert-plugin s (ok x) w next h = h w
  after_revert-plugin s (err f) w next h = ground (arith, h w)

module _ {C W : Type 0} where
  revert_objects-plugin :
      (p : Plugin C W) (s : StepRecord) (os : List ObjectRecord) (w : W)
      → stopped_for_plugin (revert_objects p s os w).error ≡ false
  unfolding revert_objects
  revert_objects-plugin p s [] w = refl
  revert_objects-plugin p s (o ∷ os) w = elim (Bool-cases (is_runtime_policy o.kind)) [
    | inl e ↦ rw e (revert_objects-plugin p s os w)
    | inr e ↦
        rw e (after_revert-plugin s _ _ (revert_objects p s os) (revert_objects-plugin p s os))
  ]

module _ {C W : Type 0} (plugins : List (Plugin C W)) where
  abbrev served : StepRecord → Bool
  served s = is_noop s.rollback_mode || is_some (lookup_plugin plugins s.type)

  rollback_step_with_mode-plugin :
      (s : StepRecord) (w : W)
      → served s ≡ true
      → stopped_for_plugin (rollback_step_with_mode plugins s w).error ≡ false
  unfolding rollback_step_with_mode
  rollback_step_with_mode-plugin s w h = elim (Bool-cases (is_noop s.rollback_mode)) [
    | inl e ↦ rw e refl
    | inr e ↦ elim (Option-cases (lookup_plugin plugins s.type)) [
      | inl f ↦ absurd (ground arith)
      | inr (p, f) ↦ rw (e, f) (revert_objects-plugin p s (reverse s.before) w)
    ]
  ]

  run_deferred-plugin :
      (l : List StepRecord) (w : W)
      → all served l ≡ true
      → stopped_for_plugin (run_deferred plugins l w).error ≡ false
  unfolding run_deferred run_rollback_one_step
  run_deferred-plugin [] w h = refl
  run_deferred-plugin (s ∷ l) w h = ground (
    arith,
    rollback_step_with_mode-plugin s w,
    run_deferred-plugin l (rollback_step_with_mode plugins s w).world,
  )

  all-append : (p : StepRecord → Bool) (l m : List StepRecord) → all p (l ++ m) ≡ all p l && all p m
  all-append p [] m = refl
  all-append p (s ∷ l) m = ground (arith, all-append p l m)

  known-served :
      (steps l : List StepRecord)
      → plugins_known plugins steps l ≡ true
      → (all served (now_steps steps l) ≡ true) × (all served (later_steps steps l) ≡ true)
  known-served steps [] h = (refl, refl)
  known-served steps (s ∷ l) h = ground (arith, known-served steps l)

  -- If every step to revert has its plugin, the walk never stops because a plugin is missing.
  pub execute_rollback_steps-plugin :
      (steps : List StepRecord) (w : W)
      → plugins_known plugins steps (reverse steps) ≡ true
      → stopped_for_plugin (execute_rollback_steps plugins steps w).error ≡ false
  execute_rollback_steps-plugin steps w h =
      let (now, later) = known-served steps (reverse steps) h in
      let known : all served (now_steps steps (reverse steps) ++ later_steps steps (reverse steps))
          ≡ true =
        ground (
          arith,
          all-append served (now_steps steps (reverse steps)) (later_steps steps (reverse steps)),
        ) in
      rw (execute_rollback_steps-deferred plugins steps w) (
        run_deferred-plugin (revert_order steps) w
          (subst (λ l. all served l ≡ true) (revert_order-steps steps) known))

  -- The errors that `RollbackSteps` gives before it reverts anything.
  abbrev pub is_refusal : RollbackError → Bool
  is_refusal (walk_failed e) = false
  is_refusal (restored_degraded notes) = false
  is_refusal _ = true

  -- With plugins whose conflict check only reads, an automatic rollback that is refused leaves the
  -- world as the sudo check left it.
  pub rollback_steps-refused :
      AllReadOnly plugins
      → (ensure_sudo : Exec W Fault (Unit {0})) (steps : List StepRecord) (w : W)
        (e : RollbackError)
      → (rollback_steps plugins ensure_sudo steps w).0 ≡ err e
      → is_refusal e ≡ true
      → (rollback_steps plugins ensure_sudo steps w).1 ≡ (ensure_sudo w).1
  unfolding rollback_steps
  rollback_steps-refused reads ensure_sudo steps w e h r =
      let settled =
        preflight_rollback_conflicts-settled plugins reads steps false false (ensure_sudo w).1 in
      ground (arith, settled)
