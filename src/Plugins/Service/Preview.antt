-- ===== src/Plugins/Service/Preview.antt =====
-- internals/plugins/service/execution.go: `Plan`. What it reads of the host comes first; the texts
-- that it builds from that are functions of their own.
use hardline.Base.{
  Text, codes, Bool, true, false, not, ◌&&◌, ◌||◌, Option, none, some, List, [], ◌∷◌, ◌++◌, ◌==◌,
  if◌then◌else◌, is_nil, Map, join, quoted, leb, ◌-◌,
}
use hardline.Base.Exec.{Exec, ◌>>=◌, ◌>>◌, pure, fail, lift}
use hardline.Pluginapi.Host.{Host}
use hardline.Pluginapi.Records.{PlanResult, mode_deterministic}
use hardline.Plugins.Service.{
  Spec, ServiceError, name_required, Action, keep, start, stop, restart, reload, unsupported,
  action_of, state_of, unit_of, validate_unit, service_is_enabled, service_is_active,
  restart_policy_suppressed,
}

abbrev color_yellow : Text
color_yellow = 27 ∷ codes "[33m"

abbrev color_green : Text
color_green = 27 ∷ codes "[32m"

abbrev color_reset : Text
color_reset = 27 ∷ codes "[0m"

-- What `Plan` found on the host: the two states, and whether the restart is suppressed, asked once
-- for the diff and once for `WillChange`.
pub record Found : Type 0 where
  pub enabled_now : Bool
  pub active_now : Bool
  pub skip_diff : Bool
  pub skip_change : Bool

abbrev enabled_text : Bool → Text
enabled_text true = codes "enabled"
enabled_text false = codes "disabled or not-found"

abbrev active_text : Bool → Text
active_text true = codes "active"
active_text false = codes "inactive or not-found"

abbrev desired_enabled : Option Bool → Text
desired_enabled none = codes "unchanged"
desired_enabled (some true) = codes "enabled"
desired_enabled (some false) = codes "disabled"

unfoldable pub enablement_diff : Option Bool → Found → List Text
enablement_diff none f = []
enablement_diff (some want) f =
    if (if want then f.enabled_now else not f.enabled_now)
    then []
    else (codes "service enablement: "
        ++ (enabled_text f.enabled_now ++ (codes " -> " ++ desired_enabled (some want))))
      ∷ []

abbrev one_if : Bool → Text → List Text
one_if true t = t ∷ []
one_if false t = []

abbrev unsupported_text : Spec → Text → Text
unsupported_text s between =
    codes "unsupported " ++ (between ++ (quoted s.state ++ (codes " requested for " ++ unit_of s)))

unfoldable pub activity_diff : Spec → Found → Action → List Text
activity_diff s f keep = []
activity_diff s f start =
    one_if (not f.active_now)
      (codes "service activity: " ++ (active_text f.active_now ++ codes " -> active"))
activity_diff s f stop = one_if f.active_now (codes "service activity: active -> inactive")
activity_diff s f restart = one_if (not f.skip_diff) (
    codes "service: restart "
    ++ (unit_of s ++ (codes " (currently " ++ (active_text f.active_now ++ codes ")"))))
activity_diff s f reload = one_if (not f.skip_diff) (
    codes "service: reload-or-restart "
    ++ (unit_of s ++ (codes " (currently " ++ (active_text f.active_now ++ codes ")"))))
activity_diff s f unsupported = []

abbrev desired_state : Spec → Found → Action → Text
desired_state s f keep = codes "unchanged"
desired_state s f start = codes "active"
desired_state s f stop = codes "inactive"
desired_state s f restart =
    if f.skip_diff
    then codes "active (restart skipped: restart_policy=on_change, no upstream change)"
    else codes "restarted (active)"
desired_state s f reload =
    if f.skip_diff
    then codes "active (reload skipped: restart_policy=on_change, no upstream change)"
    else codes "reloaded or restarted (active)"
desired_state s f unsupported = codes "unsupported (" ++ (quoted s.state ++ codes ")")

abbrev highlights_of : Spec → Action → List Text
highlights_of s unsupported =
    (codes "unsupported service state "
      ++ (quoted s.state ++ (codes " requested for " ++ unit_of s)))
    ∷ []
highlights_of s a = []

abbrev details_of : Spec → Found → Action → List Text
details_of s f a =
    (color_yellow
      ++ (codes "current: enabled="
          ++ (enabled_text f.enabled_now
              ++ (codes ", active=" ++ (active_text f.active_now ++ color_reset)))))
    ∷ ((color_green
          ++ (codes "desired: enabled="
              ++ (desired_enabled s.enabled
                  ++ (codes ", state=" ++ (desired_state s f a ++ color_reset)))))
        ∷ [])

-- The comparisons of `WillChange` are on the texts of the states.
unfoldable pub enablement_changes : Option Bool → Found → Bool
enablement_changes none f = false
enablement_changes (some want) f =
    (want && not (enabled_text f.enabled_now == codes "enabled"))
    || (not want && not (enabled_text f.enabled_now == codes "disabled or not-found"))

unfoldable pub activity_changes : Found → Action → Bool
activity_changes f keep = false
activity_changes f start = not (active_text f.active_now == codes "active")
activity_changes f stop = not (active_text f.active_now == codes "inactive or not-found")
activity_changes f restart = not f.skip_change
activity_changes f reload = not f.skip_change
activity_changes f unsupported = true

abbrev enablement_summary : Spec → List Text
enablement_summary s = elim s.enabled [
  | none ↦ []
  | some want ↦
      ((if want then codes "enable " else codes "disable ") ++ (unit_of s ++ codes " at boot")) ∷ []
]

abbrev activity_summary : Spec → Action → List Text
activity_summary s keep = []
activity_summary s start = (codes "ensure " ++ (unit_of s ++ codes " is started")) ∷ []
activity_summary s stop = (codes "ensure " ++ (unit_of s ++ codes " is stopped")) ∷ []
activity_summary s restart = (codes "restart " ++ unit_of s) ∷ []
activity_summary s reload = (codes "reload or restart " ++ unit_of s) ∷ []
activity_summary s unsupported = unsupported_text s (codes "state ") ∷ []

unfoldable pub summary_parts : Spec → Action → List Text
summary_parts s a = enablement_summary s ++ activity_summary s a

abbrev upper_byte : Text → Text
upper_byte [] = []
upper_byte (c ∷ s) = (if leb b'a' c && leb c b'z' then c - 32 else c) ∷ s

unfoldable pub service_sentence : List Text → Text
service_sentence [] = []
service_sentence (p ∷ ps) = upper_byte (join (p ∷ ps) (codes "; "))

abbrev summary_of : Spec → List Text → Text
summary_of s [] =
    codes "service step: no-op for " ++ (unit_of s ++ codes " (no enable/state change requested)")
summary_of s (p ∷ ps) = codes "service step: " ++ join (p ∷ ps) (codes "; ")

abbrev operator_summary_of : Spec → List Text → Text
operator_summary_of s [] = unit_of s ++ codes " already matches the requested service state"
operator_summary_of s (p ∷ ps) = service_sentence (p ∷ ps)

unfoldable pub preview : Spec → Found → Action → PlanResult
preview s f a = record {
  summary = summary_of s (summary_parts s a);
  details = details_of s f a;
  diff = enablement_diff s.enabled f ++ activity_diff s f a;
  will_change = enablement_changes s.enabled f || activity_changes f a;
  operator_summary = operator_summary_of s (summary_parts s a);
  highlights = highlights_of s a;
  rollback_fidelity = mode_deterministic;
}

module _ {W : Type 0} (host : Host W) where
  -- Only the two restarting states ask for the policy.
  abbrev suppressed_for : Map Bool → Spec → Action → Exec W ServiceError Bool
  suppressed_for changes s restart = restart_policy_suppressed host changes s
  suppressed_for changes s reload = restart_policy_suppressed host changes s
  suppressed_for changes s a = pure false

  unfoldable pub plan : Map Bool → Spec → Exec W ServiceError PlanResult
  plan changes s = if is_nil s.name then fail name_required else (do
    lift (validate_unit (unit_of s))
    enabled ← service_is_enabled host (unit_of s)
    active ← service_is_active host (unit_of s)
    skip_diff ← suppressed_for changes s (action_of (state_of s))
    skip_change ← suppressed_for changes s (action_of (state_of s))
    pure (
        preview s
          (record {
            enabled_now = enabled;
            active_now = active;
            skip_diff = skip_diff;
            skip_change = skip_change;
          })
          (action_of (state_of s))))
