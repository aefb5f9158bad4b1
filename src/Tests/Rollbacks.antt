-- ===== src/Tests/Rollbacks.antt =====
-- The theorems on rollback at the fixture.
use hardline.Base.{
  codes, ◌==◌, ◌≡◌, ◌≢◌, refl, true, false, some, [], ◌∷◌, ◌++◌, reverse, ok, err, is_ok, ◌&&◌,
  ◌||◌, trim_space, trim_left, trim_right, is_space, to_lower, lookup, put,
}
use hardline.Pluginapi.Records.{records_eq}
use hardline.Pluginapi.Keys.{object_key}
use hardline.Pluginapi.Registry.{lookup_plugin, find_plugin, normalize_plugin_name}
use hardline.Rollback.Journal.{
  new_step_record, set_after, step_actually_changed, rollback_step_applies,
  service_reload_triggered, step_has_service_objects,
}
use hardline.Rollback.Persist.{
  safe_byte, sanitize_byte, sanitize_path, local_last_paths, sealed, marshal_journal, check_journal,
  decode_journal, save_at, save_last, load_last, new_journal, journal_version, LastPaths,
}
use hardline.Rollback.Execute.{
  after_revert, revert_objects, rollback_step_with_mode, run_rollback_one_step, run_deferred,
  run_first, execute_rollback_steps,
}
use hardline.Rollback.Conflicts.{
  check_object, check_objects, check_step_conflicts, missing_plugin, conflict_report,
  preflight_rollback_conflicts, rollback_steps, conflicts_found,
}
use hardline.Rollback.Order.{revert_order, StopsAtFirst, execute_rollback_steps-order}
use hardline.Rollback.Restore.{Runs, IsClean, calls_of, execute_rollback_steps-Runs}
use hardline.Rollback.Preflight.{plugins_known, steps_settled, preflight_rollback_conflicts-settled}
use hardline.Rollback.Safety.{
  stopped_for_plugin, execute_rollback_steps-plugin, rollback_steps-refused,
}
use hardline.Rollback.Integrity.{decode_journal-checked, marshal-decode}
use hardline.Rollback.Atomic.{ReplacedOrKept, save_last-atomic, save_last-load_last}
use hardline.Tests.Fixture.{
  plugins, plugins-AllReadOnly, disk, disk-DiskLaws, journal, codec, sudo, world, active_world,
  records,
}

execute_rollback_steps-order_example :
    StopsAtFirst plugins
      (revert_order records)
      active_world
      (execute_rollback_steps plugins records active_world)
execute_rollback_steps-order_example = execute_rollback_steps-order plugins records active_world

-- The walk over the fixture's journal is clean.
walk-IsClean : IsClean (execute_rollback_steps plugins records active_world)
unfolding execute_rollback_steps run_first run_deferred run_rollback_one_step
    rollback_step_with_mode revert_objects after_revert lookup_plugin find_plugin
    normalize_plugin_name ◌==◌ trim_space trim_left trim_right is_space to_lower
    rollback_step_applies step_actually_changed service_reload_triggered records_eq
    step_has_service_objects new_step_record set_after lookup put object_key
walk-IsClean = record { nothing_degraded = refl; no_error = refl }

execute_rollback_steps-Runs_example :
    Runs plugins
      (calls_of (revert_order records))
      active_world
      (execute_rollback_steps plugins records active_world).world
execute_rollback_steps-Runs_example =
    execute_rollback_steps-Runs plugins records active_world walk-IsClean

preflight_rollback_conflicts-settled_example :
    (is_ok (preflight_rollback_conflicts plugins records false true active_world).0
      ≡ plugins_known plugins records (reverse records)
        && (steps_settled plugins records true (reverse records) active_world || false))
    × ((preflight_rollback_conflicts plugins records false true active_world).1 ≡ active_world)
preflight_rollback_conflicts-settled_example =
    preflight_rollback_conflicts-settled plugins plugins-AllReadOnly records false true active_world

records_known : plugins_known plugins records (reverse records) ≡ true
unfolding execute_rollback_steps run_first run_deferred run_rollback_one_step
    rollback_step_with_mode revert_objects after_revert lookup_plugin find_plugin
    normalize_plugin_name ◌==◌ trim_space trim_left trim_right is_space to_lower
    rollback_step_applies step_actually_changed service_reload_triggered records_eq
    step_has_service_objects new_step_record set_after lookup put object_key rollback_steps
    preflight_rollback_conflicts conflict_report missing_plugin check_step_conflicts check_objects
    check_object
records_known = refl

execute_rollback_steps-plugin_example :
    stopped_for_plugin (execute_rollback_steps plugins records active_world).error ≡ false
execute_rollback_steps-plugin_example =
    execute_rollback_steps-plugin plugins records active_world records_known

-- On the host as it was before the step, the journal's later state is a conflict.
moved_refused :
    (rollback_steps plugins sudo records world).0
    ≡ err (conflicts_found ((codes "start", codes "moved" ∷ []) ∷ []))
unfolding execute_rollback_steps run_first run_deferred run_rollback_one_step
    rollback_step_with_mode revert_objects after_revert lookup_plugin find_plugin
    normalize_plugin_name ◌==◌ trim_space trim_left trim_right is_space to_lower
    rollback_step_applies step_actually_changed service_reload_triggered records_eq
    step_has_service_objects new_step_record set_after lookup put object_key rollback_steps
    preflight_rollback_conflicts conflict_report missing_plugin check_step_conflicts check_objects
    check_object
moved_refused = refl

rollback_steps-refused_example : (rollback_steps plugins sudo records world).1 ≡ (sudo world).1
rollback_steps-refused_example =
    rollback_steps-refused plugins plugins-AllReadOnly sudo records world
      (conflicts_found ((codes "start", codes "moved" ∷ []) ∷ [])) moved_refused refl

sealed_decodes : decode_journal codec (marshal_journal codec journal) ≡ ok (sealed codec journal)
unfolding decode_journal marshal_journal sealed check_journal new_journal trim_space trim_left
    trim_right is_space ◌==◌
sealed_decodes = refl

decode_journal-checked_example :
    (codec.parse (marshal_journal codec journal) ≡ some (sealed codec journal))
    × ((sealed codec journal).version ≡ journal_version)
    × ((sealed codec journal).checksum ≢ [])
    × (sealed codec (sealed codec journal) ≡ sealed codec journal)
decode_journal-checked_example =
    decode_journal-checked codec (marshal_journal codec journal) (sealed codec journal)
      sealed_decodes

reads_back :
    codec.parse (codec.encode (sealed codec journal) ++ (10 ∷ [])) ≡ some (sealed codec journal)
unfolding sealed new_journal
reads_back = refl

digest_there : codec.digest (codec.encode (record journal { checksum = [] })) ≢ []
unfolding new_journal
digest_there e = cc

journal_current : journal.version ≡ journal_version
unfolding new_journal
journal_current = refl

marshal-decode_example :
    decode_journal codec (marshal_journal codec journal) ≡ ok (sealed codec journal)
marshal-decode_example = marshal-decode codec journal reads_back digest_there journal_current

abbrev paths : LastPaths
paths = record {
  dir = codes "/state/web1";
  last = codes "/state/web1/base.json";
  tmp = codes "/state/web1/base.json.tmp";
}

located : local_last_paths (ok (codes "/state")) journal.host journal.profile_id ≡ ok paths
unfolding local_last_paths sanitize_path sanitize_byte safe_byte new_journal trim_space trim_left
    trim_right is_space
located = refl

saved : (save_last codec disk (ok (codes "/state")) journal world).0 ≡ ok tt
unfolding save_last save_at local_last_paths sanitize_path sanitize_byte safe_byte new_journal
    trim_space trim_left trim_right is_space
saved = refl

save_last-atomic_example :
    ReplacedOrKept codec disk disk-DiskLaws
      (ok (codes "/state"))
      paths.last
      (marshal_journal codec journal)
      world
      (save_last codec disk (ok (codes "/state")) journal world)
save_last-atomic_example =
    save_last-atomic codec disk disk-DiskLaws (ok (codes "/state")) journal world paths located

save_last-load_last_example :
    (load_last codec disk
      (ok (codes "/state"))
      journal.host
      journal.profile_id
      (save_last codec disk (ok (codes "/state")) journal world).1).0
    ≡ ok (sealed codec journal)
save_last-load_last_example =
    save_last-load_last codec disk disk-DiskLaws (ok (codes "/state")) journal world reads_back
      digest_there journal_current saved
