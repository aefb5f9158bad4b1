-- ===== src/Plugins/Packages/Decisions.antt =====
-- internals/plugins/packages: what a plan decides is what an apply does.
use hardline.Base.{
  Text, ◌≡◌, refl, Bool, true, false, Result, ok, err, if◌then◌else◌, ℤ, arith, ap, sym,
}
use hardline.Pluginapi.Host.{Host, Fault}
use hardline.Plugins.Packages.Ops.{
  decision, SinceError, run_mode, decide_mode, run_if_due, decide_if_due, parse_since_duration,
  Mode, never, always, once, since, mode_of, Decision, is_due, due_decision, should_run,
  plan_op_decision,
}

-- What a plan would run, of its decision.
abbrev pub decided : Result SinceError Decision → Result SinceError Bool
decided (err e) = err e
decided (ok d) = ok d.will_run

due_decision-is_due :
    (mode : Text) (dur : ℤ) (age : Result Fault ℤ)
    → (due_decision mode dur age).will_run ≡ is_due dur age
unfolding due_decision is_due
due_decision-is_due mode dur (err e) = refl
due_decision-is_due mode dur (ok elapsed) = ground arith

once_decision :
    (b : Bool) (t u : Text) → decided (ok (if b then decision true t else decision false u)) ≡ ok b
once_decision true t u = refl
once_decision false t u = refl

module _ {W : Type 0} (host : Host W) where
  if_due_agree :
      (mode file : Text) (r : Result SinceError ℤ) (w : W)
      → ((run_if_due host file r w).0 ≡ decided (decide_if_due host mode file r w).0)
        × ((run_if_due host file r w).1 ≡ (decide_if_due host mode file r w).1)
  if_due_agree mode file (err e) w = (refl, refl)
  if_due_agree mode file (ok dur) w =
      (ap (λ (b : Bool). ok b) (sym (due_decision-is_due mode dur (host.stat_age file w).0)), refl)

  modes_agree :
      (file : Text) (change : Bool) (m : Mode) (w : W)
      → ((run_mode host file change m w).0 ≡ decided (decide_mode host file change m w).0)
        × ((run_mode host file change m w).1 ≡ (decide_mode host file change m w).1)
  modes_agree file change never w = (refl, refl)
  modes_agree file change always w = (refl, refl)
  modes_agree file change once w = (sym (once_decision change _ _), refl)
  modes_agree file change (since mode) w = if_due_agree mode file (parse_since_duration mode) w

  -- On the same host, the plan's decision on an operation and the test that `apply` makes read the
  -- same file, fail with the same error, and agree on whether the operation runs.
  pub should_run-plan_op_decision :
      (mode file : Text) (change : Bool) (w : W)
      → ((should_run host mode file change w).0
          ≡ decided (plan_op_decision host mode file change w).0)
        × ((should_run host mode file change w).1 ≡ (plan_op_decision host mode file change w).1)
  unfolding should_run plan_op_decision
  should_run-plan_op_decision mode file change w = modes_agree file change (mode_of mode) w
