-- ===== src/Apply/Records.antt =====
-- A run that succeeds has one journal record for each step of the profile, in the profile's order.
use hardline.Base.{
  Text, ◌≡◌, refl, ◌∙◌, ap, Option, none, some, List, [], ◌∷◌, ◌++◌, map, Result, ok, err, Map, sym,
  is_nil, Bool-cases, inl, inr,
}
use mathlib.Core.List.{append_assoc, append-nil, map-append}
use hardline.Base.Exec.{Exec, ◌>>◌, >>=-ok}
use hardline.Pluginapi.Host.{Fault}
use hardline.Pluginapi.Registry.{Step, ActionFile, profile_steps, plugin_name}
use hardline.Rollback.Journal.{StepRecord, new_step_record, set_after}
use hardline.Rollback.Command.{Env}
use hardline.Apply.Step.{Run, StepError, execute_step}
use hardline.Apply.Run.{
  RunError, on_poll, abort, abort_if_cancelled, after_step, apply_step, apply_steps, apply_profile,
  interrupted_result, step_outcome,
}
use hardline.Rollback.Persist.{JournalError}
use hardline.Rollback.Conflicts.{RollbackError}
use hardline.Apply.Recording.{step_record, execute_step-record}

-- What identifies a record, and the step that it is for.
abbrev pub record_names : List StepRecord → List (Text × Text)
record_names l = map (λ r. (r.id, r.type)) l

abbrev pub step_names : {C : Type 0} → List (Step C) → List (Text × Text)
step_names l = map (λ s. (s.id, plugin_name s)) l

interrupted_result-fails :
    (f : Fault) (saved : Result JournalError (Unit {0})) (r : Result RollbackError (Unit {0}))
    → interrupted_result f saved r ≡ ok tt
    → ⊥
interrupted_result-fails f saved (ok x) h = cc
interrupted_result-fails f saved (err e) h = cc

step_outcome-fails :
    (id : Text) (e : StepError) (r : Result RollbackError (Unit {0}))
    → step_outcome id e r ≡ ok tt
    → ⊥
step_outcome-fails id e (ok x) h = cc
step_outcome-fails id e (err r) h = cc

module _ {C W : Type 0} (env : Env C W) (overrides : Map Text) (poll : W → Option Fault × W) where
  abbrev names : Run W → List (Text × Text)
  names s = record_names s.journal.steps

  abort-fails : (f : Fault) (s : Run W) → (abort env overrides f s).0 ≡ ok tt → ⊥
  unfolding abort
  abort-fails f s h = elim (Bool-cases (is_nil s.journal.steps)) [
    | inl e ↦ cc (rw e at h)
    | inr e ↦ interrupted_result-fails f _ _ (rw e at h)
  ]

  after_step-ok :
      (id : Text) (r : Result StepError (Unit {0})) (t : Run W)
      → (after_step env overrides poll id r t).0 ≡ ok tt
      → (r ≡ ok tt) × ((after_step env overrides poll id r t).1 ≡ t)
  unfolding after_step
  after_step-ok id (ok x) t h = (refl, refl)
  after_step-ok id (err e) t h = absurd (step_outcome-fails id e _ h)

  abort_if_cancelled-names :
      (s : Run W)
      → (abort_if_cancelled env overrides poll s).0 ≡ ok tt
      → names (abort_if_cancelled env overrides poll s).1 ≡ names s
  unfolding abort_if_cancelled
  abort_if_cancelled-names s = go (poll s.world).0 (record s { world = (poll s.world).1 })
    where
      go :
          (c : Option Fault) (t : Run W)
          → (on_poll env overrides poll c t).0 ≡ ok tt
          → names (on_poll env overrides poll c t).1 ≡ names t
      go none t h = refl
      go (some f) t h = absurd (abort-fails f t h)

  abbrev step_run : Step C → Exec (Run W) RunError (Unit {0})
  step_run step s =
      let (r, t) = execute_step env overrides step s in after_step env overrides poll step.id r t

  step_run-names :
      (step : Step C) (s : Run W)
      → (step_run step s).0 ≡ ok tt
      → names (step_run step s).1 ≡ names s ++ ((step.id, plugin_name step) ∷ [])
  step_run-names step s h =
      let (done, same) =
        after_step-ok step.id (execute_step env overrides step s).0
          (execute_step env overrides step s).1 h in
      let r = execute_step-record env overrides step s done in
      rw (same, r.recorded)
        (unfold new_step_record set_after in
          map-append (λ (r : StepRecord). (r.id, r.type)) s.journal.steps
            (step_record step r.before r.after ∷ []))

  apply_step-names :
      (step : Step C) (s : Run W)
      → (apply_step env overrides poll step s).0 ≡ ok tt
      → names (apply_step env overrides poll step s).1
        ≡ names s ++ ((step.id, plugin_name step) ∷ [])
  unfolding apply_step
  apply_step-names step s h =
      let (_, first, on) =
        >>=-ok (abort_if_cancelled env overrides poll)
          (λ _. step_run step >> abort_if_cancelled env overrides poll) s tt h in
      let t = (abort_if_cancelled env overrides poll s).1 in
      let (_, second, on') =
        >>=-ok (step_run step) (λ _. abort_if_cancelled env overrides poll) t tt (rw on at h) in
      let u = (step_run step t).1 in
      rw (on, on')
        (abort_if_cancelled-names u (rw on' at (rw on at h))
          ∙ step_run-names step t second
          ∙ ap (λ (x : List (Text × Text)). x ++ ((step.id, plugin_name step) ∷ []))
              (abort_if_cancelled-names s first))

  apply_steps-names :
      (l : List (Step C)) (s : Run W)
      → (apply_steps env overrides poll l s).0 ≡ ok tt
      → names (apply_steps env overrides poll l s).1 ≡ names s ++ step_names l
  unfolding apply_steps
  apply_steps-names [] s h = rw append-nil
  apply_steps-names (step ∷ l) s h =
      let (_, first, on) =
        >>=-ok (apply_step env overrides poll step) (λ _. apply_steps env overrides poll l) s tt
          h in
      let t = (apply_step env overrides poll step s).1 in
      rw on (
        apply_steps-names l t (rw on at h)
        ∙ ap (λ (x : List (Text × Text)). x ++ step_names l) (apply_step-names step s first)
        ∙ append_assoc (names s) ((step.id, plugin_name step) ∷ []) (step_names l))

  -- A successful run adds to the journal one record for each step of the action files, in order,
  -- with the step's id and its plugin's name.
  pub apply_profile-names :
      (files : List (ActionFile C)) (s : Run W)
      → (apply_profile env overrides poll files s).0 ≡ ok tt
      → record_names (apply_profile env overrides poll files s).1.journal.steps
        ≡ record_names s.journal.steps ++ step_names (profile_steps files)
  unfolding apply_profile
  apply_profile-names [] s h = rw append-nil
  apply_profile-names (af ∷ rest) s h =
      let (_, first, on) =
        >>=-ok (apply_steps env overrides poll af.steps)
          (λ _. apply_profile env overrides poll rest) s tt h in
      let t = (apply_steps env overrides poll af.steps s).1 in
      rw on (
        apply_profile-names rest t (rw on at h)
        ∙ ap (λ (x : List (Text × Text)). x ++ step_names (profile_steps rest))
            (apply_steps-names af.steps s first)
        ∙ append_assoc (names s) (step_names af.steps) (step_names (profile_steps rest))
        ∙ ap (λ (x : List (Text × Text)). names s ++ x)
            (sym (map-append _ af.steps (profile_steps rest))))
