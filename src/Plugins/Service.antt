-- ===== src/Plugins/Service.antt =====
-- internals/plugins/service: the step config, what both `Apply` and `Plan` read of the host, and the
-- checks that are common to the handlers. `systemctl` is the host's: a probe is a command whose
-- success is the answer. A missing host or config is not a value here.
pub mod Run
pub mod Preview
pub mod Snapshot
pub mod Agree
pub mod Settled
use hardline.Base.{
  ℕ, ◌+◌, Text, codes, ◌==◌, Bool, true, false, not, ◌&&◌, ◌||◌, Option, none, some, List, [], ◌∷◌,
  ◌++◌, Result, ok, err, is_ok, if◌then◌else◌, is_nil, trim_space, to_lower, Map, lookup, any, all,
  leb, nat_eq, length, put,
}
use hardline.Base.Exec.{Exec, ◌>>=◌, ◌>>◌, pure, lift}
use hardline.Pluginapi.Host.{Host, Fault}
use hardline.Pluginapi.Shell.{shell_arg}

pub record RestartPolicy : Type 0 where
  pub type : Text
  pub steps : List Text

pub record Spec : Type 0 where
  pub name : Text
  pub enabled : Option Bool
  pub state : Text
  pub restart_policy : Option RestartPolicy

pub data ServiceError : Type 0 where
  name_required : ServiceError
  invalid_unit : Text → ServiceError
  command_failed : Text → Fault → ServiceError
  unsupported_state always_with_steps on_change_without_steps : Text → ServiceError
  empty_watched unsupported_policy policy_without_state : Text → ServiceError
  duplicate_watched : Text → Text → ServiceError
  unknown_state no_enabled_state : Text → ServiceError
  inexpressible : Text → Text → ServiceError
  unit_empty missing_snapshot wrong_kind : ServiceError

abbrev pub is_alnum : ℕ → Bool
is_alnum c =
    (leb b'a' c && leb c b'z') || ((leb b'A' c && leb c b'Z') || (leb b'0' c && leb c b'9'))

abbrev pub is_unit_byte : ℕ → Bool
is_unit_byte c =
    is_alnum c || (nat_eq c b'.' || (nat_eq c b'_' || (nat_eq c b'@' || nat_eq c b'-')))

-- serviceUnitPattern
unfoldable pub matches_unit : Text → Bool
matches_unit [] = false
matches_unit (c ∷ s) = is_alnum c && (all is_unit_byte s && leb (length s) 127)

unfoldable pub validate_unit : Text → Result ServiceError (Unit {0})
validate_unit unit = if matches_unit unit then ok tt else err (invalid_unit unit)

abbrev pub unit_of : Spec → Text
unit_of s = trim_space s.name

-- The cases of the `switch` on the state, lower case and without the spaces around it.
pub data Action : Type 0 where
  keep start stop restart reload unsupported : Action

unfoldable pub action_of : Text → Action
action_of t =
    if is_nil t
    then keep
    else if t == codes "started" || t == codes "start"
    then start
    else if t == codes "stopped" || t == codes "stop"
    then stop
    else if t == codes "restarted" || t == codes "restart"
    then restart
    else if t == codes "reloaded" || (t == codes "reload" || t == codes "reload-or-restart")
    then reload
    else unsupported

abbrev pub state_of : Spec → Text
state_of s = to_lower (trim_space s.state)

abbrev pub same : Bool → Bool → Bool
same true b = b
same false b = not b

abbrev pub step_changed : Option Bool → Bool
step_changed none = false
step_changed (some b) = b

module _ {W : Type 0} (host : Host W) where
  -- The answer of a probe: whether the command succeeds.
  unfoldable pub succeeds : Text → Exec W ServiceError Bool
  succeeds cmd w = let (r, w') = host.run_root cmd w in (ok (is_ok r), w')

  unfoldable pub service_is_enabled : Text → Exec W ServiceError Bool
  service_is_enabled unit =
      succeeds (codes "systemctl is-enabled " ++ (shell_arg unit ++ codes " >/dev/null 2>&1"))

  unfoldable pub service_is_active : Text → Exec W ServiceError Bool
  service_is_active unit =
      succeeds (codes "systemctl is-active " ++ (shell_arg unit ++ codes " >/dev/null 2>&1"))

  -- The last check of `restartPolicySuppressed`.
  abbrev enabled_as_wanted : Text → Option Bool → Exec W ServiceError Bool
  enabled_as_wanted unit none = pure true
  enabled_as_wanted unit (some want) = service_is_enabled unit >>= λ now. pure (same want now)

  abbrev unless_changed : Map Bool → Spec → List Text → Exec W ServiceError Bool
  unless_changed changes s steps =
      if any (λ id. step_changed (lookup id changes)) steps then pure false else (do
        active ← service_is_active (unit_of s)
        if active then enabled_as_wanted (unit_of s) s.enabled else pure false)

  unfoldable pub restart_policy_suppressed : Map Bool → Spec → Exec W ServiceError Bool
  restart_policy_suppressed changes s = elim s.restart_policy [
    | none ↦ pure false
    | some p ↦
        if to_lower (trim_space p.type) == codes "on_change"
        then unless_changed changes s p.steps
        else pure false
  ]

-- The loop over the watched ids of an `on_change` policy; the ids seen so far are passed on.
unfoldable pub check_watched : Text → List Text → List Text → Result ServiceError (Unit {0})
check_watched unit [] seen = ok tt
check_watched unit (id ∷ rest) seen =
    let next = check_watched unit rest (trim_space id ∷ seen) in
    if is_nil (trim_space id)
    then err (empty_watched unit)
    else if any (λ x. x == trim_space id) seen
    then err (duplicate_watched unit (trim_space id))
    else next

abbrev check_policy_type : Text → Text → List Text → Result ServiceError (Unit {0})
check_policy_type unit type steps =
    if type == codes "always"
    then (if is_nil steps then ok tt else err (always_with_steps unit))
    else if type == codes "on_change"
    then (if is_nil steps then err (on_change_without_steps unit) else check_watched unit steps [])
    else err (unsupported_policy unit)

unfoldable pub validate_restart_policy : Spec → Result ServiceError (Unit {0})
validate_restart_policy s = elim s.restart_policy [
  | none ↦ ok tt
  | some p ↦ elim (check_policy_type (unit_of s) (to_lower (trim_space p.type)) p.steps) [
    | err e ↦ err e
    | ok x ↦ if is_nil (trim_space s.state) then err (policy_without_state (unit_of s)) else ok tt
  ]
]

abbrev supported : Action → Text → Result ServiceError (Unit {0})
supported unsupported t = err (unsupported_state t)
supported a t = ok tt

unfoldable pub validate_service_spec : Spec → Result ServiceError (Unit {0})
validate_service_spec s =
    if is_nil (trim_space s.name) then err name_required else (elim (validate_unit (unit_of s)) [
      | err e ↦ err e
      | ok x ↦ elim (supported (action_of (state_of s)) s.state) [
        | err e ↦ err e
        | ok y ↦ validate_restart_policy s
      ]
    ])
