-- ===== src/Rollback/Restore.antt =====
-- A walk that reverts everything, as the list of the calls that it makes.
use hardline.Base.{
  Bool, true, false, ap, subst, ◌∙◌, ◌≡◌, refl, not, none, some, List, [], ◌∷◌, ◌++◌, map, reverse,
  Result, ok, err, if◌then◌else◌, select, arith, Bool-cases, Option-cases, inl, inr,
}
use hardline.Pluginapi.Host.{Fault}
use hardline.Pluginapi.Records.{
  ObjectKind, object_file, object_file_meta, object_service, object_package, object_runtime_policy,
  unknown_kind, ObjectRecord, RollbackMode, mode_deterministic, mode_best_effort, mode_noop,
  mode_irreversible, unknown_mode,
}
use hardline.Pluginapi.Registry.{Plugin, lookup_plugin}
use hardline.Rollback.Journal.{StepRecord, is_runtime_policy}
use hardline.Rollback.Execute.{
  Degraded, Walk, then_walk, after_note, after_revert, revert_objects, rollback_step_with_mode,
  run_rollback_one_step, run_deferred, is_noop, execute_rollback_steps,
}
use hardline.Rollback.Order.{revert_order, select-same, execute_rollback_steps-deferred}

-- The objects that reverting a step hands to its plugin, in order.
abbrev step_calls : StepRecord → List (StepRecord × ObjectRecord)
step_calls s =
    if is_noop s.rollback_mode
    then []
    else map (λ o. (s, o)) (select (λ o. not (is_runtime_policy o.kind)) (reverse s.before))

abbrev pub is_skipped : RollbackMode → Bool
is_skipped mode_noop = true
is_skipped _ = false

abbrev pub is_policy : ObjectKind → Bool
is_policy object_runtime_policy = true
is_policy _ = false

-- The same, in words of its own: nothing for the mode noop, and no runtime policy.
abbrev pub calls_for : StepRecord → List (StepRecord × ObjectRecord)
calls_for s =
    if is_skipped s.rollback_mode
    then []
    else map (λ o. (s, o)) (select (λ o. not (is_policy o.kind)) (reverse s.before))

is_noop-is_skipped : (m : RollbackMode) → is_noop m ≡ is_skipped m
is_noop-is_skipped mode_deterministic = refl
is_noop-is_skipped mode_best_effort = refl
is_noop-is_skipped mode_noop = refl
is_noop-is_skipped mode_irreversible = refl
is_noop-is_skipped (unknown_mode t) = refl

is_runtime_policy-is_policy : (k : ObjectKind) → is_runtime_policy k ≡ is_policy k
is_runtime_policy-is_policy object_file = refl
is_runtime_policy-is_policy object_file_meta = refl
is_runtime_policy-is_policy object_service = refl
is_runtime_policy-is_policy object_package = refl
is_runtime_policy-is_policy object_runtime_policy = refl
is_runtime_policy-is_policy (unknown_kind t) = refl

step_calls-calls_for : (s : StepRecord) → step_calls s ≡ calls_for s
step_calls-calls_for s =
    ap
      (λ (c : Bool).
        if c
        then []
        else map (λ o. (s, o)) (select (λ o. not (is_runtime_policy o.kind)) (reverse s.before)))
      (is_noop-is_skipped s.rollback_mode)
    ∙ ap (λ (l : List ObjectRecord). if is_skipped s.rollback_mode then [] else map (λ o. (s, o)) l)
        (select-same (λ (o : ObjectRecord). not (is_runtime_policy o.kind))
          (λ o. not (is_policy o.kind)) (reverse s.before)
          (λ o. ap not (is_runtime_policy-is_policy o.kind)))

abbrev pub calls_of : List StepRecord → List (StepRecord × ObjectRecord)
calls_of [] = []
calls_of (s ∷ rest) = calls_for s ++ calls_of rest

-- Nothing was noted and nothing failed.
pub record IsClean {W : Type 0} (r : Walk W) : Type 0 where
  pub nothing_degraded : r.degraded ≡ []
  pub no_error : r.error ≡ none

after_revert-IsClean :
    {W : Type 0} (s : StepRecord) (r : Result Fault (Unit {0})) (w : W) (next : W → Walk W)
    → IsClean (after_revert s r w next)
    → (r ≡ ok tt) × (after_revert s r w next ≡ next w)
unfolding after_revert
after_revert-IsClean s (ok x) w next c = (refl, refl)
after_revert-IsClean s (err f) w next c = ground arith

after_note-IsClean :
    {W : Type 0} (notes : List Degraded) (r : Walk W)
    → IsClean (after_note notes r)
    → (notes ≡ []) × (after_note notes r ≡ r)
after_note-IsClean [] r c = (refl, refl)
after_note-IsClean (n ∷ notes) r c = absurd (ground arith)

then_walk-IsClean :
    {W : Type 0} (r : Walk W) (next : W → Walk W)
    → IsClean (then_walk r next)
    → IsClean r × (then_walk r next ≡ next r.world)
then_walk-IsClean r next c = elim (Option-cases r.error) [
  | inl e ↦
      let clean : IsClean (after_note r.degraded (next r.world)) = rw e at c in
      let (nothing, on) = after_note-IsClean r.degraded (next r.world) clean in
      (record { nothing_degraded = nothing; no_error = e }, rw e on)
  | inr (x, e) ↦ absurd (ground arith)
]

module _ {C W : Type 0} (plugins : List (Plugin C W)) where
  -- Every call finds its plugin and succeeds, and the world goes from `w` to `w'`.
  abbrev pub Runs : List (StepRecord × ObjectRecord) → W → W → Type 0
  Runs [] w w' = w ≡ w'
  Runs ((s, o) ∷ t) w w' =
      (p : Plugin C W) × (lookup_plugin plugins s.type ≡ some p)
      × (v : W) × (p.rollback o w ≡ (ok tt, v))
      × Runs t v w'

  Runs-append :
      (t u : List (StepRecord × ObjectRecord)) (w v w' : W)
      → Runs t w v
      → Runs u v w'
      → Runs (t ++ u) w w'
  Runs-append [] u w v w' e r = rw e r
  Runs-append ((s, o) ∷ t) u w v w' (p, found, v', call, rest) r =
      (p, found, v', call, Runs-append t u v' v w' rest r)

  revert_objects-Runs :
      (p : Plugin C W) (s : StepRecord)
      → lookup_plugin plugins s.type ≡ some p
      → (os : List ObjectRecord) (w : W) → IsClean (revert_objects p s os w)
      → Runs
          (map (λ o. (s, o)) (select (λ o. not (is_runtime_policy o.kind)) os))
          w
          (revert_objects p s os w).world
  unfolding revert_objects
  revert_objects-Runs p s found [] w c = refl
  revert_objects-Runs p s found (o ∷ os) w c = elim (Bool-cases (is_runtime_policy o.kind)) [
    | inl e ↦ rw e (revert_objects-Runs p s found os w (rw e at c))
    | inr e ↦
        let clean : IsClean
            (after_revert s (p.rollback o w).0 (p.rollback o w).1 (revert_objects p s os)) =
          rw e at c in
        let (done, on) = after_revert-IsClean s _ _ _ clean in
        rw e (
          p,
          found,
          (p.rollback o w).1,
          λ i. (done i, (p.rollback o w).1),
          rw on (revert_objects-Runs p s found os (p.rollback o w).1 (rw on at clean)),
        )
  ]

  rollback_step_with_mode-Runs :
      (s : StepRecord) (w : W)
      → IsClean (rollback_step_with_mode plugins s w)
      → Runs (step_calls s) w (rollback_step_with_mode plugins s w).world
  unfolding rollback_step_with_mode
  rollback_step_with_mode-Runs s w c = elim (Bool-cases (is_noop s.rollback_mode)) [
    | inl e ↦ rw e refl
    | inr e ↦ elim (Option-cases (lookup_plugin plugins s.type)) [
      | inl f ↦ absurd (ground arith)
      | inr (p, f) ↦ rw (e, f) (revert_objects-Runs p s f (reverse s.before) w (rw (e, f) at c))
    ]
  ]

  run_rollback_one_step-IsClean :
      (s : StepRecord) (w : W)
      → IsClean (run_rollback_one_step plugins s w)
      → run_rollback_one_step plugins s w ≡ rollback_step_with_mode plugins s w
  unfolding run_rollback_one_step
  run_rollback_one_step-IsClean s w c = ground arith

  run_deferred-Runs :
      (l : List StepRecord) (w : W)
      → IsClean (run_deferred plugins l w)
      → Runs (calls_of l) w (run_deferred plugins l w).world
  unfolding run_deferred
  run_deferred-Runs [] w c = refl
  run_deferred-Runs (s ∷ l) w c =
      let (first, on) =
        then_walk-IsClean (run_rollback_one_step plugins s w) (run_deferred plugins l) c in
      let same = run_rollback_one_step-IsClean s w first in
      let v = (run_rollback_one_step plugins s w).world in
      rw on (
        Runs-append (calls_for s) (calls_of l) w v _
          (subst (λ t. Runs t w v) (step_calls-calls_for s)
            (rw same (rollback_step_with_mode-Runs s w (rw same at first))))
          (run_deferred-Runs l v (rw on at c)))

  -- A walk that ends with no error and nothing degraded has called, for every step that has changed
  -- or reloaded something and whose mode is not noop, in the order of `revert_order`, the `Rollback`
  -- of the step's plugin on each object of its first capture, the last first, but for runtime
  -- policies; every call succeeded, on the world that the one before had left.
  pub execute_rollback_steps-Runs :
      (steps : List StepRecord) (w : W)
      → IsClean (execute_rollback_steps plugins steps w)
      → Runs (calls_of (revert_order steps)) w (execute_rollback_steps plugins steps w).world
  execute_rollback_steps-Runs steps w c =
      let order = execute_rollback_steps-deferred plugins steps w in
      rw order (run_deferred-Runs (revert_order steps) w (rw order at c))
