-- ===== src/Plugins/Service/Snapshot.antt =====
-- internals/plugins/service: `Capture`, `restoreServiceState` and `serviceStateConflict`, and the
-- handlers `Rollback` and `DetectConflict` around the last two.
use hardline.Base.{
  Text, codes, Bool, true, false, not, ◌&&◌, ◌||◌, Option, none, some, List, [], ◌∷◌, ◌++◌, ◌==◌,
  Result, ok, err, if◌then◌else◌, is_nil, any, trim_space, to_lower, quoted,
}
use hardline.Base.Exec.{Exec, ◌>>=◌, ◌>>◌, pure, fail, lift, wrapping}
use hardline.Pluginapi.Host.{Host, Fault}
use hardline.Pluginapi.Shell.{shell_arg}
use hardline.Pluginapi.Records.{
  ServiceState, ServiceReload, CaptureResult, ObjectRecord, object_service, mode_deterministic,
}
use hardline.Plugins.Service.{
  Spec, ServiceError, command_failed, unknown_state, unit_empty, no_enabled_state, inexpressible,
  missing_snapshot, wrong_kind, state_of, unit_of, same, validate_unit,
}
use hardline.Plugins.Service.Run.{systemctl}

abbrev reload_policy : Spec → Text
reload_policy s = elim s.restart_policy [ none ↦ [] | some p ↦ to_lower (trim_space p.type) ]

abbrev reload_deps : Spec → List Text
reload_deps s = elim s.restart_policy [
  | none ↦ []
  | some p ↦ if to_lower (trim_space p.type) == codes "on_change" then p.steps else []
]

unfoldable pub service_reload_record : Spec → Option ServiceReload
service_reload_record s =
    if is_nil (state_of s)
    then none
    else some (record {
      action = state_of s;
      restart_policy = reload_policy s;
      restart_deps = reload_deps s;
    })

unfoldable pub restorable_unit_file_states : List Text
restorable_unit_file_states =
    codes "enabled" ∷ (codes "enabled-runtime" ∷ (codes "disabled" ∷ (codes "indirect" ∷ [])))

unfoldable pub unconfigurable_unit_file_states : List Text
unconfigurable_unit_file_states = codes "static" ∷ (codes "generated" ∷ (codes "transient" ∷ []))

abbrev pub is_restorable : Text → Bool
is_restorable t = any (λ x. x == t) restorable_unit_file_states

abbrev pub is_unconfigurable : Text → Bool
is_unconfigurable t = any (λ x. x == t) unconfigurable_unit_file_states

-- The arguments of `systemctl` that bring an enablement back.
unfoldable pub enable_verb : Text → Text
enable_verb recorded =
    if recorded == codes "enabled"
    then codes "enable"
    else if recorded == codes "enabled-runtime"
    then codes "enable --runtime"
    else codes "disable"

abbrev bool_text : Bool → Text
bool_text true = codes "true"
bool_text false = codes "false"

abbrev pub changed_text : Text → Text → Bool → Bool → List Text
changed_text unit what now recorded =
    if same now recorded
    then []
    else (codes "service "
        ++ (quoted unit
            ++ (codes ": "
                ++ (what
                    ++ (codes " state is "
                        ++ (bool_text now
                            ++ (codes " but journal recorded "
                                ++ (bool_text recorded
                                    ++ codes " after apply (changed since apply)"))))))))
      ∷ []

-- The conflicts of a recorded state with the current one.
unfoldable pub state_conflicts : Text → ServiceState → ServiceState → List Text
state_conflicts unit current state =
    changed_text unit (codes "enabled") current.enabled state.enabled
    ++ changed_text unit (codes "active") current.active state.active

unfoldable pub state_from_words : Text → Text → Text → ServiceState
state_from_words unit enabled_val active_val = record {
  unit = unit;
  enabled = enabled_val == codes "enabled";
  active = active_val == codes "active";
  enabled_state = enabled_val;
  active_state = active_val;
  known = not (is_nil enabled_val) || not (is_nil active_val);
}

abbrev pub service_record : ServiceState → ObjectRecord
service_record state = record {
  kind = object_service;
  file = none;
  file_meta = none;
  service = some state;
  pkg = none;
  runtime_policy = none;
  message = [];
}

abbrev trimmed : Result ServiceError Text → Result ServiceError Text
trimmed (err e) = err e
trimmed (ok out) = ok (trim_space out)

abbrev printed : Result Fault Text → Bool
printed (err e) = false
printed (ok out) = not (is_nil (trim_space out))

module _ {W : Type 0} (host : Host W) where
  unfoldable pub unit_state_word : Text → Text → Exec W ServiceError Text
  unit_state_word verb unit w =
      let (r, w') =
        wrapping (command_failed unit)
          (host.run_root_with_output (
            codes "systemctl "
            ++ (verb ++ (codes " " ++ (shell_arg unit ++ codes " 2>/dev/null || true")))))
          w in
      (trimmed r, w')

  unfoldable pub snapshot_service_state : Text → Exec W ServiceError ServiceState
  snapshot_service_state unit = do
    enabled_val ← unit_state_word (codes "is-enabled") unit
    active_val ← unit_state_word (codes "is-active") unit
    pure (state_from_words unit enabled_val active_val)

  unfoldable pub capture : Spec → Exec W ServiceError CaptureResult
  capture s = do
    lift (validate_unit (unit_of s))
    state ← snapshot_service_state (unit_of s)
    pure (record {
      rollback_mode = mode_deterministic;
      objects = service_record state ∷ [];
      notes = [];
      reload = service_reload_record s;
    })

  unfoldable pub service_unit_present : Text → Exec W ServiceError Bool
  service_unit_present unit w =
      let (r, w') =
        host.run_root_with_output
          (codes "systemctl cat " ++ (shell_arg unit ++ codes " 2>/dev/null || true")) w in
      (ok (printed r), w')

  abbrev restore_enablement : Text → Text → Exec W ServiceError (Unit {0})
  restore_enablement unit recorded =
      if is_restorable recorded then systemctl host (enable_verb recorded) unit else pure tt

  -- What is restored of a unit that the host has.
  unfoldable pub restore_present : Text → Text → Bool → Exec W ServiceError (Unit {0})
  restore_present unit recorded active =
      if is_nil recorded
      then fail (no_enabled_state unit)
      else if is_restorable recorded || is_unconfigurable recorded
      then (do
        restore_enablement unit recorded
        systemctl host (if active then codes "restart" else codes "stop") unit)
      else fail (inexpressible unit recorded)

  unfoldable pub restore_service_state : ServiceState → Exec W ServiceError (Unit {0})
  restore_service_state state =
      let unit = trim_space state.unit in
      if is_nil unit then fail unit_empty else (do
        lift (validate_unit unit)
        lift (if state.known then ok tt else err (unknown_state unit))
        present ← service_unit_present unit
        (if present
            then restore_present unit (trim_space state.enabled_state) state.active
            else pure tt))

  abbrev pub conflicts_with : Text → ServiceState → Result ServiceError ServiceState → List Text
  conflicts_with unit state (err e) = []
  conflicts_with unit state (ok current) = state_conflicts unit current state

  unfoldable pub service_state_conflict : ServiceState → W → List Text × W
  service_state_conflict state w =
      let unit = trim_space state.unit in
      if state.known && not (is_nil unit)
      then (let (r, w') = snapshot_service_state unit w in (conflicts_with unit state r, w'))
      else ([], w)

  abbrev rollback_service : Option ServiceState → Exec W ServiceError (Unit {0})
  rollback_service none = fail missing_snapshot
  rollback_service (some state) = restore_service_state state

  unfoldable pub rollback : ObjectRecord → Exec W ServiceError (Unit {0})
  rollback o = elim o.kind [ object_service ↦ rollback_service o.service | _ ↦ fail wrong_kind ]

  unfoldable pub detect_conflict : ObjectRecord → W → List Text × W
  detect_conflict o w = elim o.kind [
    | object_service ↦ (elim o.service [
      | none ↦ ([], w)
      | some state ↦ service_state_conflict state w
    ])
    | _ ↦ ([], w)
  ]
