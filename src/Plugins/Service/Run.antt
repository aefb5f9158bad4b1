-- ===== src/Plugins/Service/Run.antt =====
-- internals/plugins/service/execution.go: `Apply`.
use hardline.Base.{
  Text, codes, Bool, true, false, Option, none, some, ◌++◌, if◌then◌else◌, is_nil, Map,
}
use hardline.Base.Exec.{Exec, ◌>>=◌, ◌>>◌, pure, fail, lift, wrapping}
use hardline.Pluginapi.Host.{Host}
use hardline.Pluginapi.Shell.{shell_arg}
use hardline.Plugins.Service.{
  Spec, ServiceError, name_required, command_failed, unsupported_state, Action, keep, start, stop,
  restart, reload, unsupported, action_of, state_of, unit_of, same, validate_unit,
  service_is_enabled, service_is_active, restart_policy_suppressed,
}

module _ {W : Type 0} (host : Host W) where
  abbrev pub systemctl : Text → Text → Exec W ServiceError (Unit {0})
  systemctl verb unit =
      wrapping (command_failed unit)
        (host.run_root (codes "systemctl " ++ (verb ++ (codes " " ++ shell_arg unit))))

  abbrev pub unless : Bool → Exec W ServiceError (Unit {0}) → Exec W ServiceError (Unit {0})
  unless true k = pure tt
  unless false k = k

  unfoldable pub toggle : Text → Option Bool → Exec W ServiceError (Unit {0})
  toggle unit none = pure tt
  toggle unit (some want) = service_is_enabled host unit >>= λ now.
      unless (same want now) (systemctl (if want then codes "enable" else codes "disable") unit)

  -- The `switch` on the state with the command behind it.
  unfoldable pub act : Map Bool → Spec → Action → Exec W ServiceError (Unit {0})
  act changes s keep = pure tt
  act changes s start = service_is_active host (unit_of s) >>= λ active.
      unless active (systemctl (codes "start") (unit_of s))
  act changes s stop = service_is_active host (unit_of s) >>= λ active.
      unless (if active then false else true) (systemctl (codes "stop") (unit_of s))
  act changes s restart = restart_policy_suppressed host changes s >>= λ skip.
      unless skip (systemctl (codes "restart") (unit_of s))
  act changes s reload = restart_policy_suppressed host changes s >>= λ skip.
      unless skip (systemctl (codes "reload-or-restart") (unit_of s))
  act changes s unsupported = fail (unsupported_state s.state)

  unfoldable pub apply : Map Bool → Spec → Exec W ServiceError (Unit {0})
  apply changes s = if is_nil s.name then fail name_required else (do
    lift (validate_unit (unit_of s))
    toggle (unit_of s) s.enabled
    act changes s (action_of (state_of s)))
