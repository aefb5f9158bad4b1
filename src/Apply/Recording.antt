-- ===== src/Apply/Recording.antt =====
-- What a step leaves in the journal, its record, and the changes that later steps are told of.
use hardline.Base.{Text, ◌≡◌, refl, sym, ◌∙◌, ap, Bool, List, [], ◌∷◌, ◌++◌, Result, ok, Map, put}
use hardline.Base.Exec.{lift, >>=-ok, wrap_result, wrap_result-ok, wrapping-ok, wrapping}
use hardline.Pluginapi.Records.{CaptureResult}
use hardline.Pluginapi.Keys.{captures_differ}
use hardline.Pluginapi.Registry.{Step, Plugin, plugin_name, require_step_plugin}
use hardline.Rollback.Journal.{StepRecord, new_step_record, set_after}
use hardline.Rollback.Command.{Env}
use hardline.Apply.Step.{
  no_plugin, capture_failed, apply_failed, Run, StepError, on_world, capture_step_record,
  handle_step, journal_before, journal_after, persist, map_last, capture_after_error, execute_step,
}
use hardline.Apply.Journalled.{ok-injective}

map_last-append :
    (f : StepRecord → StepRecord) (l : List StepRecord) (r : StepRecord)
    → map_last f (l ++ (r ∷ [])) ≡ l ++ (f r ∷ [])
map_last-append f [] r = refl
map_last-append f (s ∷ []) r = refl
map_last-append f (s ∷ (t ∷ l)) r =
    ap (λ (x : List StepRecord). s ∷ x) (map_last-append f (t ∷ l) r)

-- The record of a step that was captured before and after.
abbrev pub step_record : {C : Type 0} → Step C → CaptureResult → CaptureResult → StepRecord
step_record step before after = set_after (new_step_record step.id (plugin_name step) before) after

module _ {C W : Type 0} (env : Env C W) (overrides : Map Text) where
  capture_with :
      (step : Step C) (p : Plugin C W) (w : W)
      → require_step_plugin env.plugins step ≡ ok p
      → capture_step_record env overrides step w
        ≡ wrapping capture_failed (p.capture overrides step) w
  unfolding capture_step_record
  capture_with step p w found = rw found refl

  handle_with :
      (step : Step C) (p : Plugin C W) (changes : Map Bool) (w : W)
      → require_step_plugin env.plugins step ≡ ok p
      → handle_step env overrides changes step w
        ≡ wrapping apply_failed (p.apply overrides changes step) w
  unfolding handle_step
  handle_with step p changes w found = rw found refl

  -- A capture that succeeds is one by the step's plugin.
  capture-plugin :
      (step : Step C) (w : W) (c : CaptureResult)
      → (capture_step_record env overrides step w).0 ≡ ok c
      → (p : Plugin C W) × (require_step_plugin env.plugins step ≡ ok p)
        × ((p.capture overrides step w).0 ≡ ok c)
  unfolding capture_step_record
  capture-plugin step w c h =
      let (p, found, on) =
        >>=-ok (lift (wrap_result no_plugin (require_step_plugin env.plugins step))) _ w c h in
      (
        p,
        wrap_result-ok no_plugin (require_step_plugin env.plugins step) found,
        wrapping-ok capture_failed (p.capture overrides step) w (rw on at h),
      )

  journal_before-record :
      (step : Step C) (s : Run W) (before : CaptureResult)
      → (journal_before env overrides step s).0 ≡ ok before
      → ((capture_step_record env overrides step s.world).0 ≡ ok before)
        × ((journal_before env overrides step s).1.journal.steps
            ≡ s.journal.steps ++ (new_step_record step.id (plugin_name step) before ∷ []))
        × ((journal_before env overrides step s).1.changes ≡ s.changes)
  unfolding journal_before persist
  journal_before-record step s before h =
      let (c, taken, on) =
        >>=-ok (on_world (capture_step_record env overrides step)) _ s before h in
      let t = record (on_world (capture_step_record env overrides step) s).1 {
        journal = record s.journal {
          steps = s.journal.steps ++ (new_step_record step.id (plugin_name step) c ∷ []);
        };
      } in
      let (_, _, on') = >>=-ok (persist env overrides) (λ _ u. (ok c, u)) t before (rw on at h) in
      let same : c ≡ before = ok-injective c before (rw on' at (rw on at h)) in
      (
        taken ∙ ap (λ (x : CaptureResult). ok x) same,
        rw (on, on')
            (ap
              (λ (x : CaptureResult).
                s.journal.steps ++ (new_step_record step.id (plugin_name step) x ∷ []))
              same),
        rw (on, on') refl,
      )

  journal_after-record :
      (step : Step C) (before : CaptureResult) (s : Run W)
      → (journal_after env overrides step before s).0 ≡ ok tt
      → (after : CaptureResult) × ((capture_step_record env overrides step s.world).0 ≡ ok after)
        × ((journal_after env overrides step before s).1.journal.steps
            ≡ map_last (λ r. set_after r after) s.journal.steps)
        × ((journal_after env overrides step before s).1.changes
            ≡ put step.id (captures_differ before after) s.changes)
  unfolding journal_after persist
  journal_after-record step before s h =
      let (c, taken, on) =
        >>=-ok (on_world (wrapping capture_after_error (capture_step_record env overrides step))) _
          s tt h in
      (
        c,
        wrapping-ok capture_after_error (capture_step_record env overrides step) s.world taken,
        rw on refl,
        rw on refl,
      )

  -- What the step's plugin was asked and answered, and what became of that. `u` is the run behind the
  -- step, and the plugin was called in the world `v`.
  pub record Recorded (step : Step C) (s : Run W) (v : W) (u : Run W) : Type 0 where
    pub plugin : Plugin C W
    pub required : require_step_plugin env.plugins step ≡ ok plugin
    pub before : CaptureResult
    pub after : CaptureResult
    pub captured_before : (plugin.capture overrides step s.world).0 ≡ ok before
    pub applied : (plugin.apply overrides s.changes step v).0 ≡ ok tt
    pub captured_after :
        (plugin.capture overrides step (plugin.apply overrides s.changes step v).1).0 ≡ ok after
    pub recorded : u.journal.steps ≡ s.journal.steps ++ (step_record step before after ∷ [])
    pub told : u.changes ≡ put step.id (captures_differ before after) s.changes

  pub execute_step-record :
      (step : Step C) (s : Run W)
      → (execute_step env overrides step s).0 ≡ ok tt
      → Recorded step s
          (journal_before env overrides step s).1.world
          (execute_step env overrides step s).1
  unfolding execute_step
  execute_step-record step s h =
      let (before, first, on) = >>=-ok (journal_before env overrides step) _ s tt h in
      let t = (journal_before env overrides step s).1 in
      let (taken, steps, changes) = journal_before-record step s before first in
      let (p, found, captured) = capture-plugin step s.world before taken in
      let (_, handled, on') =
        >>=-ok (λ u. on_world (handle_step env overrides u.changes step) u)
          (λ _. journal_after env overrides step before) t tt (rw on at h) in
      let u = (on_world (handle_step env overrides t.changes step) t).1 in
      let (after, again, steps', changes') =
        journal_after-record step before u (rw on' at (rw on at h)) in
      let call : handle_step env overrides t.changes step t.world
          ≡ wrapping apply_failed (p.apply overrides s.changes step) t.world =
        handle_with step p t.changes t.world found
        ∙ ap (λ (m : Map Bool). wrapping apply_failed (p.apply overrides m step) t.world) changes in
      record {
        plugin = p;
        required = found;
        before = before;
        after = after;
        captured_before = captured;
        applied =
            wrapping-ok apply_failed (p.apply overrides s.changes step) t.world
              (ap (λ (r : Result StepError (Unit {0}) × W). r.0) (sym call) ∙ handled);
        captured_after = wrapping-ok capture_failed (p.capture overrides step) _ (
            ap (λ (r : Result StepError CaptureResult × W). r.0)
              (sym (capture_with step p (p.apply overrides s.changes step t.world).1 found))
            ∙ ap
                (λ (r : Result StepError (Unit {0}) × W).
                  (capture_step_record env overrides step r.1).0)
                (sym call)
            ∙ again);
        recorded =
            rw (on, on')
              (steps'
                ∙ ap (map_last (λ r. set_after r after)) steps
                ∙ map_last-append (λ r. set_after r after) s.journal.steps
                    (new_step_record step.id (plugin_name step) before));
        told = rw (on, on') (changes' ∙ ap (put step.id (captures_differ before after)) changes);
      }
