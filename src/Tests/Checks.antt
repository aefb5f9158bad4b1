-- ===== src/Tests/Checks.antt =====
-- The step graph and the service plugin at concrete inputs.
use hardline.Base.{
  Text, codes, ◌==◌, ◌≡◌, refl, Bool, true, false, Option, none, some, List, [], ◌∷◌, Result, ok,
  err, is_ok, ◌&&◌, map, trim_space, trim_left, trim_right, is_space, to_lower, contains,
  has_prefix, if◌then◌else◌, quoted, join,
}
use hardline.Pluginapi.Host.{Host, Fault}
use hardline.Pluginapi.Shell.{escape_quotes, shell_arg}
use hardline.Pluginapi.Records.{PlanResult}
use hardline.Pluginapi.Registry.{
  ActionFile, profile_steps, Candidate, register, prepare_plugin, normalize_plugin_name,
  find_plugin,
}
use hardline.Pluginapi.Registry.Names.{names_distinct, register-names_distinct}
use hardline.Tests.Fixture.{World, units, plugins}
use hardline.Profile.Graph.{validate_step_graph}
use hardline.Profile.Graph.Spec.{ids_fresh, watches_earlier}
use hardline.Profile.Graph.Watches.{validate_step_graph-decides}
use hardline.Plugins.Service.{
  Spec, start, unit_of, service_is_enabled, service_is_active, succeeds, validate_unit,
  matches_unit, action_of, restart_policy_suppressed,
}
use hardline.Plugins.Service.Run.{apply}
use hardline.Plugins.Service.Preview.{
  plan, preview, summary_parts, service_sentence, enablement_diff, activity_diff,
  enablement_changes, activity_changes,
}
use hardline.Plugins.Service.Agree.{Probed, plan-idle}

-- A step config that is what it watches.
abbrev decode : List Text → Result Fault (Option (List Text))
decode deps = ok (some deps)

abbrev files : List (ActionFile (List Text))
files =
    record {
      path = codes "a.json";
      steps =
          record { id = codes "conf"; plugin = codes "file"; config = [] }
          ∷ (record { id = codes "reload"; plugin = codes "service"; config = codes "conf" ∷ [] }
              ∷ []);
    }
    ∷ []

validate_step_graph-decides_example :
    is_ok (validate_step_graph decode files)
    ≡ ids_fresh [] (map (λ s. s.id) (profile_steps files))
      && watches_earlier decode [] (profile_steps files)
validate_step_graph-decides_example = validate_step_graph-decides decode files

-- A host whose world says whether the one unit is active; its unit is enabled.
abbrev unit_host : Host Bool
unit_host = record {
  run_root = λ cmd active.
      if contains cmd (codes "is-active")
      then ((if active then ok tt else err (codes "inactive")), active)
      else if contains cmd (codes "start")
      then (ok tt, true)
      else (ok tt, active);
  run_root_with_output = λ cmd active. (ok [], active);
  run_root_with_timeout = λ cmd limit active. (ok [], active);
  stat_age = λ p active. (err (codes "missing"), active);
  read_root_file = λ p active. (err (codes "missing"), active);
  write_root_file = λ p t mode active. (ok tt, active);
}

abbrev nginx : Spec
nginx = record {
  name = codes "nginx";
  enabled = some true;
  state = codes "started";
  restart_policy = none;
}

nginx-Probed : Probed unit_host (unit_of nginx) true
unfolding service_is_enabled service_is_active succeeds contains has_prefix shell_arg escape_quotes
    trim_space trim_left trim_right is_space
nginx-Probed = record {
  enabled_now = true;
  active_now = true;
  asks_enabled = refl;
  asks_active = refl;
}

abbrev nginx_plan : PlanResult
nginx_plan =
    preview nginx
      (record { enabled_now = true; active_now = true; skip_diff = false; skip_change = false })
      start

plan_says : (plan unit_host [] nginx true).0 ≡ ok nginx_plan
unfolding plan service_is_enabled service_is_active succeeds contains has_prefix shell_arg
    escape_quotes trim_space trim_left trim_right is_space validate_unit matches_unit action_of
    to_lower restart_policy_suppressed preview summary_parts service_sentence enablement_diff
    activity_diff enablement_changes activity_changes ◌==◌ quoted join
plan_says = refl

plan_idle : nginx_plan.will_change ≡ false
unfolding preview enablement_changes activity_changes ◌==◌
plan_idle = refl

plan-idle_example : apply unit_host [] nginx true ≡ (ok tt, true)
plan-idle_example = plan-idle unit_host [] nginx true nginx-Probed nginx_plan plan_says plan_idle

abbrev wanted : Candidate (Option Bool) World
wanted = record {
  name = codes " Service ";
  validate = some units.validate;
  apply = some units.apply;
  plan = true;
  capture = some units.capture;
  rollback = some units.rollback;
  detect_conflict = some units.detect_conflict;
}

registers : register wanted [] ≡ ok plugins
unfolding register prepare_plugin normalize_plugin_name find_plugin trim_space trim_left trim_right
    is_space to_lower
registers = refl

none_twice : names_distinct {C = Option Bool} {W = World} [] ≡ true
none_twice = refl

register-names_distinct_example : names_distinct plugins ≡ true
register-names_distinct_example = register-names_distinct wanted [] plugins none_twice registers
