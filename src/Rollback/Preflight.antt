-- ===== src/Rollback/Preflight.antt =====
-- What the preflight decides, for plugins whose `DetectConflict` only reads.
use hardline.Base.{
  Text, ◌≡◌, refl, Bool, true, not, ◌&&◌, ◌||◌, Option, none, some, List, [], ◌∷◌, ◌++◌, reverse,
  is_ok, if◌then◌else◌, is_nil, is_some, all, arith, Bool-cases, Option-cases, inl, inr, Map,
  lookup,
}
use hardline.Pluginapi.Records.{ObjectRecord}
use hardline.Pluginapi.Keys.{object_key, by_key}
use hardline.Pluginapi.Registry.{Plugin, lookup_plugin}
use hardline.Rollback.Journal.{StepRecord, rollback_step_applies, is_runtime_policy}
use hardline.Rollback.Execute.{is_noop}
use hardline.Rollback.Conflicts.{
  report_object, check_object, check_objects, check_step_conflicts, missing_plugin, conflict_report,
  preflight_rollback_conflicts,
}

is_nil-append : (xs ys : List Text) → is_nil (xs ++ ys) ≡ is_nil xs && is_nil ys
is_nil-append [] ys = refl
is_nil-append (x ∷ xs) ys = refl

module _ {C W : Type 0} where
  -- The plugin sees no conflict for the object, or, on a resumed rollback, none for the object of
  -- its key that rollback would restore.
  abbrev pub is_settled : Plugin C W → Option ObjectRecord → ObjectRecord → W → Bool
  is_settled p none a w = is_nil (p.detect_conflict a w).0
  is_settled p (some b) a w = is_nil (p.detect_conflict b w).0 || is_nil (p.detect_conflict a w).0

  abbrev pub are_settled : Plugin C W → Map ObjectRecord → List ObjectRecord → W → Bool
  are_settled p before after w =
      all (λ a. is_runtime_policy a.kind || is_settled p (lookup (object_key a) before) a w) after

  abbrev pub ReadsOnly : Plugin C W → Type 0
  ReadsOnly p = (o : ObjectRecord) (w : W) → (p.detect_conflict o w).1 ≡ w

  report_object-is_settled :
      (p : Plugin C W)
      → ReadsOnly p
      → (a : ObjectRecord) (next : W → List Text × W) (w : W) (v : Bool) → is_nil (next w).0 ≡ v
      → (next w).1 ≡ w
      → (is_nil (report_object p a next w).0 ≡ is_nil (p.detect_conflict a w).0 && v)
        × ((report_object p a next w).1 ≡ w)
  unfolding report_object
  report_object-is_settled p reads a next w v e f =
      rw (reads a w) (rw (is_nil-append (p.detect_conflict a w).0 (next w).0, e) refl, f)

  check_object-is_settled :
      (p : Plugin C W)
      → ReadsOnly p
      → (o : Option ObjectRecord) (a : ObjectRecord) (next : W → List Text × W) (w : W) (v : Bool)
      → is_nil (next w).0 ≡ v
      → (next w).1 ≡ w
      → (is_nil (check_object p o a next w).0 ≡ is_settled p o a w && v)
        × ((check_object p o a next w).1 ≡ w)
  unfolding check_object
  check_object-is_settled p reads none a next w v e f =
      report_object-is_settled p reads a next w v e f
  check_object-is_settled p reads (some b) a next w v e f =
      rw (reads b w) (elim (Bool-cases (is_nil (p.detect_conflict b w).0)) [
        | inl h ↦ rw h (e, f)
        | inr h ↦ rw h (report_object-is_settled p reads a next w v e f)
      ])

  check_objects-are_settled :
      (p : Plugin C W)
      → ReadsOnly p
      → (before : Map ObjectRecord) (after : List ObjectRecord) (w : W)
      → (is_nil (check_objects p before after w).0 ≡ are_settled p before after w)
        × ((check_objects p before after w).1 ≡ w)
  unfolding check_objects
  check_objects-are_settled p reads before [] w = (refl, refl)
  check_objects-are_settled p reads before (a ∷ after) w =
      let (e, f) = check_objects-are_settled p reads before after w in
      elim (Bool-cases (is_runtime_policy a.kind)) [
        | inl h ↦ rw h (e, f)
        | inr h ↦ rw h (
            check_object-is_settled p reads (lookup (object_key a) before) a
              (check_objects p before after) w (are_settled p before after w) e f)
      ]

module _ {C W : Type 0} (plugins : List (Plugin C W)) where
  -- Every registered plugin only reads.
  abbrev pub AllReadOnly : Type 0
  AllReadOnly = (t : Text) (p : Plugin C W) → lookup_plugin plugins t ≡ some p → ReadsOnly p

  abbrev pub step_settled : StepRecord → Bool → W → Bool
  step_settled s resuming w = elim (lookup_plugin plugins s.type) [
    | none ↦ true
    | some p ↦ are_settled p (if resuming then by_key s.before [] else []) s.after w
  ]

  -- Every step that rollback would revert has its plugin, and sits where rollback expects it.
  abbrev pub plugins_known : List StepRecord → List StepRecord → Bool
  plugins_known steps l =
      all
        (λ s.
          not (rollback_step_applies s steps)
          || is_noop s.rollback_mode
          || is_some (lookup_plugin plugins s.type))
        l

  abbrev pub steps_settled : List StepRecord → Bool → List StepRecord → W → Bool
  steps_settled steps resuming l w =
      all (λ s. not (rollback_step_applies s steps) || step_settled s resuming w) l

  missing_plugin-plugins_known :
      (steps l : List StepRecord)
      → is_some (missing_plugin plugins steps l) ≡ not (plugins_known steps l)
  unfolding missing_plugin
  missing_plugin-plugins_known steps [] = refl
  missing_plugin-plugins_known steps (s ∷ l) = ground (arith, missing_plugin-plugins_known steps l)

  check_step_conflicts-step_settled :
      AllReadOnly
      → (s : StepRecord) (resuming : Bool) (w : W)
      → (is_nil (check_step_conflicts plugins s resuming w).0 ≡ step_settled s resuming w)
        × ((check_step_conflicts plugins s resuming w).1 ≡ w)
  unfolding check_step_conflicts
  check_step_conflicts-step_settled reads s resuming w =
      elim (Option-cases (lookup_plugin plugins s.type)) [
        | inl e ↦ rw (e, is_nil, check_step_conflicts, step_settled) (refl, refl)
        | inr (p, e) ↦
            rw (e, is_nil, check_step_conflicts, step_settled)
              (check_objects-are_settled p (reads s.type p e)
                (if resuming then by_key s.before [] else []) s.after w)
      ]

  conflict_report-steps_settled :
      AllReadOnly
      → (steps : List StepRecord) (resuming : Bool) (l : List StepRecord) (w : W)
      → (is_nil (conflict_report plugins steps resuming l w).0 ≡ steps_settled steps resuming l w)
        × ((conflict_report plugins steps resuming l w).1 ≡ w)
  unfolding conflict_report
  conflict_report-steps_settled reads steps resuming [] w = (refl, refl)
  conflict_report-steps_settled reads steps resuming (s ∷ l) w =
      let (e, f) = conflict_report-steps_settled reads steps resuming l w in
      let (g, h) = check_step_conflicts-step_settled reads s resuming w in
      elim (Bool-cases (rollback_step_applies s steps)) [
        | inl a ↦ rw (a, h) (ground (arith, g, e), f)
        | inr a ↦ rw a (e, f)
      ]

  -- With plugins that only read, the preflight leaves the world as it is, and passes exactly if every
  -- step to revert that is not in noop mode has its plugin and, unless conflicts are forced, all that
  -- the steps to revert recorded after apply is settled. That is asked object by object, of each one
  -- but the runtime policies, in the steps that have a plugin: it sits where apply left it or, on a
  -- resumed rollback, where the step's capture before apply has the object of the same key. So a
  -- resumed rollback also passes a step of which some objects are reverted and others are not.
  pub preflight_rollback_conflicts-settled :
      AllReadOnly
      → (steps : List StepRecord) (force resuming : Bool) (w : W)
      → (is_ok (preflight_rollback_conflicts plugins steps force resuming w).0
          ≡ plugins_known steps (reverse steps)
            && (steps_settled steps resuming (reverse steps) w || force))
        × ((preflight_rollback_conflicts plugins steps force resuming w).1 ≡ w)
  unfolding preflight_rollback_conflicts
  preflight_rollback_conflicts-settled reads steps force resuming w =
      let k = missing_plugin-plugins_known steps (reverse steps) in
      let (e, f) = conflict_report-steps_settled reads steps resuming (reverse steps) w in
      elim (Option-cases (missing_plugin plugins steps (reverse steps))) [
        | inl m ↦ (
          rw (m, is_ok, preflight_rollback_conflicts) (ground (arith, e, k)),
          rw (m, preflight_rollback_conflicts) f,
        )
        | inr (s, m) ↦ (
          rw (m, is_ok, preflight_rollback_conflicts) (ground (arith, k)),
          rw (m, preflight_rollback_conflicts),
        )
      ]
