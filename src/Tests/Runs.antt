-- ===== src/Tests/Runs.antt =====
-- The theorems on apply at the fixture.
use hardline.Base.{
  codes, ◌==◌, ◌≡◌, refl, true, false, [], ◌++◌, ok, trim_space, trim_left, trim_right, is_space,
  to_lower, lookup, put,
}
use hardline.Pluginapi.Records.{records_eq}
use hardline.Pluginapi.Keys.{object_key, by_key}
use hardline.Pluginapi.Registry.{lookup_plugin, find_plugin, normalize_plugin_name}
use hardline.Rollback.Journal.{
  new_step_record, set_after, step_actually_changed, rollback_step_applies,
  service_reload_triggered, step_has_service_objects,
}
use hardline.Rollback.Persist.{
  safe_byte, sanitize_byte, sanitize_path, local_last_paths, sealed, marshal_journal, save_at,
  save_last, new_journal, LastPaths,
}
use hardline.Rollback.Execute.{
  after_revert, revert_objects, rollback_step_with_mode, run_rollback_one_step, run_deferred,
  run_first, execute_rollback_steps,
}
use hardline.Rollback.Conflicts.{
  check_object, check_objects, check_step_conflicts, missing_plugin, conflict_report,
  preflight_rollback_conflicts, rollback_steps,
}
use hardline.Rollback.Automatic.{AllReverted}
use hardline.Pluginapi.Keys.{
  captures_differ, any_differs, object_differs, payload_differs, object_payload_present,
  kind_payload, service_differs,
}
use hardline.Pluginapi.Registry.{require_step_plugin, plugin_name, profile_steps}
use hardline.Pluginapi.Unchanged.{distinct_keys, captures_differ-same}
use hardline.Apply.Step.{
  Run, capture_step_record, handle_step, persist, journal_before, journal_after, execute_step,
}
use hardline.Apply.Run.{
  abort, abort_if_cancelled, after_step, apply_step, apply_steps, apply_profile,
}
use hardline.Apply.Recovery.{claims, apply_profile-reverts}
use hardline.Apply.Records.{record_names, step_names, apply_profile-names}
use hardline.Tests.Fixture.{
  plugins, journal, env, run, poll, good_files, bad_files, capture_of, unit_object,
}

-- The second step fails, and the automatic rollback completes.
bad_run-claims : claims (apply_profile env [] poll bad_files run).0 ≡ true
unfolding execute_rollback_steps run_first run_deferred run_rollback_one_step
    rollback_step_with_mode revert_objects after_revert lookup_plugin find_plugin
    normalize_plugin_name ◌==◌ trim_space trim_left trim_right is_space to_lower
    rollback_step_applies step_actually_changed service_reload_triggered records_eq
    step_has_service_objects new_step_record set_after lookup put object_key rollback_steps
    preflight_rollback_conflicts conflict_report missing_plugin check_step_conflicts check_objects
    check_object captures_differ by_key any_differs object_differs payload_differs
    object_payload_present kind_payload service_differs capture_step_record handle_step persist
    journal_before journal_after execute_step abort abort_if_cancelled after_step apply_step
    apply_steps apply_profile require_step_plugin plugin_name save_last save_at local_last_paths
    sanitize_path sanitize_byte safe_byte new_journal marshal_journal sealed
bad_run-claims = refl

apply_profile-reverts_example :
    AllReverted plugins
      (apply_profile env [] poll bad_files run).1.journal.steps
      (apply_profile env [] poll bad_files run).1.world
apply_profile-reverts_example = apply_profile-reverts env [] poll bad_files run bad_run-claims

good_run_succeeds : (apply_profile env [] poll good_files run).0 ≡ ok tt
unfolding execute_rollback_steps run_first run_deferred run_rollback_one_step
    rollback_step_with_mode revert_objects after_revert lookup_plugin find_plugin
    normalize_plugin_name ◌==◌ trim_space trim_left trim_right is_space to_lower
    rollback_step_applies step_actually_changed service_reload_triggered records_eq
    step_has_service_objects new_step_record set_after lookup put object_key rollback_steps
    preflight_rollback_conflicts conflict_report missing_plugin check_step_conflicts check_objects
    check_object captures_differ by_key any_differs object_differs payload_differs
    object_payload_present kind_payload service_differs capture_step_record handle_step persist
    journal_before journal_after execute_step abort abort_if_cancelled after_step apply_step
    apply_steps apply_profile require_step_plugin plugin_name save_last save_at local_last_paths
    sanitize_path sanitize_byte safe_byte new_journal marshal_journal sealed
good_run_succeeds = refl

apply_profile-names_example :
    record_names (apply_profile env [] poll good_files run).1.journal.steps
    ≡ record_names run.journal.steps ++ step_names (profile_steps good_files)
apply_profile-names_example = apply_profile-names env [] poll good_files run good_run_succeeds

abbrev paths : LastPaths
paths = record {
  dir = codes "/state/web1";
  last = codes "/state/web1/base.json";
  tmp = codes "/state/web1/base.json.tmp";
}

one_object : distinct_keys (capture_of (unit_object false)).objects ≡ true
unfolding lookup
one_object = refl

captures_differ-same_example :
    captures_differ (capture_of (unit_object false)) (capture_of (unit_object false)) ≡ false
captures_differ-same_example =
    captures_differ-same (capture_of (unit_object false)) (capture_of (unit_object false)) refl
      one_object
