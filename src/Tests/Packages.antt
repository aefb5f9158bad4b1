-- ===== src/Tests/Packages.antt =====
-- The plugins for package managers at concrete inputs: a host with two packages.
use hardline.Base.{
  ◌*◌, inr, some, arith, Text, codes, ◌==◌, ◌≡◌, refl, Bool, true, false, not, ◌&&◌, none, List, [],
  ◌∷◌, ok, err, is_ok, is_nil, All, all, map, trim_space, has_prefix, has_suffix, if◌then◌else◌,
  pos, negsuc, atoi, digits_value,
}
use hardline.Pluginapi.Host.{Host}
use hardline.Pluginapi.Records.{PackageState, CaptureResult}
use hardline.Plugins.Packages.{Spec}
use hardline.Plugins.Packages.Ops.{
  parse_since_duration, should_run, plan_op_decision, state_last_update, decision, int64,
}
use hardline.Plugins.Packages.Names.{apt_name, member}
use hardline.Plugins.Packages.Validate.{validate_lists}
use hardline.Plugins.Packages.Exec.{
  run_root, append_packages, targets, sorted_names, trimmed_names, insert_name,
}
use hardline.Plugins.Packages.Backend.{Backend, PkgFound}
use hardline.Plugins.Packages.Run.{apply}
use hardline.Plugins.Packages.Snapshot.{
  capture, capture_names, captured, record_of, restore, detect_conflict,
}
use hardline.Plugins.Packages.Report.{PlanInputs}
use hardline.Plugins.Packages.Render.{render_plan}
use hardline.Plugins.Packages.Decisions.{decided, should_run-plan_op_decision}
use hardline.Plugins.Packages.Since.{since_mode, IsUnit, Fits, parse_since_duration-since_mode}
use hardline.Plugins.Packages.Lists.{filled, distinct, apart, validate_lists-decides}
use hardline.Plugins.Packages.Effects.{render_plan-will_change}
use hardline.Plugins.Packages.Guarded.{SafeHost, apply-keeps}
use hardline.Plugins.Packages.Removal.{SafeRemoval, restore-keeps}
use hardline.Plugins.Packages.Settled.{capture-conflict_free}

-- Whether telnet is installed, and whether the kernel is.
abbrev Machine : Type 0
Machine = Bool × Bool

abbrev telnet : Text
telnet = codes "telnet"

-- A command that starts with `purge` takes telnet away.
abbrev machine_host : Host Machine
machine_host = record {
  run_root = λ cmd w. (ok tt, if has_prefix cmd (codes "purge") then (false, w.1) else w);
  run_root_with_output = λ cmd w. (ok [], w);
  run_root_with_timeout =
      λ cmd limit w. (ok [], if has_prefix cmd (codes "purge") then (false, w.1) else w);
  stat_age = λ p w. (ok (pos 7200000000000), w);
  read_root_file = λ p w. (err (codes "missing"), w);
  write_root_file = λ p t mode w. (ok tt, w);
}

abbrev found_on : Machine → Text → PkgFound
found_on w name = record {
  installed = if name == telnet then w.0 else w.1;
  version = codes "1";
  pin = [];
}

abbrev toy_backend : Backend Machine
toy_backend = record {
  name = codes "toy";
  name_pattern = apt_name;
  pin_pattern = λ t. false;
  check_lock = λ host w. (ok tt, w);
  query = λ host name w. (ok (found_on w name), w);
  commands = record {
    update = codes "update";
    upgrade = codes "upgrade";
    install = codes "install";
    purge = codes "purge";
    autoremove = codes "autoremove";
    rollback_remove = [];
  };
  previews = record {
    upgrade = λ host w. (ok [], w);
    install = λ host names w. (ok names, w);
    purge = λ host names w. (ok names, w);
    autoremove = λ host w. (ok [], w);
    rollback_remove = none;
  };
}

abbrev purge_telnet : Spec
purge_telnet = record {
  update = codes "if_1h_since_last";
  upgrade = [];
  autoremove = codes "always";
  install = [];
  purge = telnet ∷ [];
  purge_also_removes = [];
}

abbrev HasKernel : Machine → Type 0
HasKernel w = w.1 ≡ true

purge_safe : SafeHost HasKernel toy_backend machine_host purge_telnet
unfolding run_root append_packages has_prefix
purge_safe = record {
  locks = record { at = λ w h. h };
  queries = λ name. record { at = λ w h. h };
  ages = λ file w h. h;
  makes_dir = record { at = λ w h. h };
  writes = λ file text. record { at = λ w h. h };
  updates = record { at = λ w h. h };
  upgrades = record { at = λ w h. h };
  installs = record { at = λ w h. h };
  previews_purge = record { at = λ w h. h };
  previews_autoremove = record { at = λ w h. h };
  purges = λ w names h e d. h;
  autoremoves = λ w names h e d. h;
}

apply-keeps_example :
    (apply toy_backend machine_host (λ w. []) purge_telnet (true, true)).1.1 ≡ true
apply-keeps_example =
    apply-keeps HasKernel toy_backend machine_host purge_telnet (λ w. []) purge_safe (true, true)
      refl

abbrev telnet_installed : PackageState
telnet_installed = record {
  name = telnet;
  was_installed = false;
  version = [];
  pin_spec = [];
  requested_install = true;
  requested_purge = false;
}

removal_safe : SafeRemoval HasKernel toy_backend machine_host telnet_installed
unfolding append_packages has_prefix
removal_safe = record {
  previews = record { at = λ w h. h };
  installs = λ name. record { at = λ w h. h };
  removes = λ w names h e d. h;
}

restore-keeps_example : (restore toy_backend machine_host telnet_installed (true, true)).1.1 ≡ true
restore-keeps_example =
    restore-keeps HasKernel toy_backend machine_host telnet_installed removal_safe (true, true) refl

abbrev fortnight : Text
fortnight = codes "if_2w_since_last"

should_run-plan_op_decision_example :
    ((should_run machine_host fortnight state_last_update false (true, true)).0
      ≡ decided (plan_op_decision machine_host fortnight state_last_update false (true, true)).0)
    × ((should_run machine_host fortnight state_last_update false (true, true)).1
        ≡ (plan_op_decision machine_host fortnight state_last_update false (true, true)).1)
should_run-plan_op_decision_example =
    should_run-plan_op_decision machine_host fortnight state_last_update false (true, true)

fortnight_length : parse_since_duration fortnight ≡ ok (pos 1209600000000000)
unfolding parse_since_duration has_prefix has_suffix ◌==◌ atoi digits_value int64
fortnight_length = refl

-- A count of hours whose nanoseconds do not fit in an `int64` is a negative duration, which every file
-- is old enough for.
hours_overflow :
    parse_since_duration (codes "if_2562048h_since_last") ≡ ok (negsuc 9223371273709551615)
unfolding parse_since_duration has_prefix has_suffix ◌==◌ atoi digits_value int64
hours_overflow = refl

two_weeks : IsUnit b'w' 604800000000000
two_weeks = inr (inr (refl, refl))

two_read : atoi (codes "2") ≡ some (pos 2)
unfolding atoi digits_value
two_read = refl

parse_since_duration-since_mode_example :
    (parse_since_duration (since_mode (codes "2") b'w') ≡ ok (int64 (2 * 604800000000000)))
    × Fits (2 * 604800000000000)
parse_since_duration-since_mode_example =
    parse_since_duration-since_mode (codes "2") 2 b'w' 604800000000000 two_read (omega arith)
      two_weeks

abbrev curl : List Text
curl = codes "curl" ∷ []

validate_lists-decides_example :
    is_ok (validate_lists apt_name curl (telnet ∷ []))
    ≡ (filled curl && distinct (map trim_space curl))
      && ((filled (telnet ∷ [])
            && (distinct (map trim_space (telnet ∷ []))
                && apart (map trim_space (telnet ∷ [])) (map trim_space curl)))
          && (all apt_name curl && all apt_name (telnet ∷ [])))
validate_lists-decides_example = validate_lists-decides apt_name curl (telnet ∷ [])

abbrev telnet_taken : CaptureResult
telnet_taken =
    captured toy_backend machine_host purge_telnet
      (record_of [] (telnet ∷ []) telnet (found_on (true, true) telnet) ∷ [], true)

takes_telnet : (capture toy_backend machine_host purge_telnet (true, true)).0 ≡ ok telnet_taken
unfolding capture capture_names targets sorted_names trimmed_names trim_space insert_name member
    ◌==◌
takes_telnet = refl

capture-conflict_free_example :
    ((capture toy_backend machine_host purge_telnet (true, true)).1 ≡ (true, true))
    × All
        (λ o. detect_conflict toy_backend machine_host o (true, true) ≡ ([], (true, true)))
        telnet_taken.objects
capture-conflict_free_example =
    capture-conflict_free toy_backend machine_host purge_telnet (true, true) (λ n. refl)
      telnet_taken takes_telnet

abbrev install_curl : PlanInputs
install_curl = record {
  update_mode = codes "always";
  upgrade_mode = [];
  autoremove_mode = [];
  install_infos = record { name = codes "curl"; installed = true } ∷ [];
  purge_infos = [];
  update = decision true (codes "always");
  upgrade = decision false [];
  autoremove = decision false [];
  upgrade_preview = ok [];
  install_preview = ok curl;
  purge_preview = ok [];
  autoremove_preview = ok [];
  purge_also_removes = [];
}

render_plan-will_change_example :
    (render_plan install_curl).will_change ≡ not (is_nil (render_plan install_curl).diff)
render_plan-will_change_example = render_plan-will_change install_curl
