-- ===== src/Pluginapi/Registry.antt =====
-- pkg/pluginapi/registry.go: plugins, their registration and their lookup by name. A registry is
-- the list of its plugins; a nil registry or profile, which the source refuses, is not a value here.
pub mod Names
use hardline.Base.{
  Text, ◌==◌, Bool, true, false, Option, none, some, List, [], ◌∷◌, ◌++◌, Result, ok, err, ◌>>=◌,
  ◌>>◌, trim_space, to_lower, is_nil, if◌then◌else◌, Map,
}
use hardline.Base.Exec.{Exec}
use hardline.Pluginapi.Host.{Fault}
use hardline.Pluginapi.Records.{ObjectRecord, CaptureResult}

-- pkg/profile/profile.go: a step. `C` is the type of its config, which only its plugin reads.
pub record Step (C : Type 0) : Type 0 where
  pub id : Text
  pub plugin : Text
  pub config : C

pub record ActionFile (C : Type 0) : Type 0 where
  pub path : Text
  pub steps : List (Step C)

-- The steps of all action files, in the order in which they run.
abbrev pub profile_steps : {C : Type 0} → List (ActionFile C) → List (Step C)
profile_steps [] = []
profile_steps (af ∷ rest) = af.steps ++ profile_steps rest

-- (Step).PluginName
unfoldable pub plugin_name : {C : Type 0} → Step C → Text
plugin_name s = to_lower (trim_space s.plugin)

-- The functions of a plugin. Overrides are a map from names to raw JSON; `apply` and `plan` read
-- them and the steps that have changed so far.
pub record Plugin (C W : Type 0) : Type 0 where
  pub name : Text
  pub validate : Step C → Map Text → Option Fault
  pub apply : Map Text → Map Bool → Step C → Exec W Fault (Unit {0})
  pub capture : Map Text → Step C → Exec W Fault CaptureResult
  pub rollback : ObjectRecord → Exec W Fault (Unit {0})
  pub detect_conflict : ObjectRecord → W → List Text × W

-- What a caller hands to `Register`: the functions may be nil. `Plan` is only checked for nil:
-- planning is not modelled.
pub record Candidate (C W : Type 0) : Type 0 where
  pub name : Text
  pub validate : Option (Step C → Map Text → Option Fault)
  pub apply : Option (Map Text → Map Bool → Step C → Exec W Fault (Unit {0}))
  pub plan : Bool
  pub capture : Option (Map Text → Step C → Exec W Fault CaptureResult)
  pub rollback : Option (ObjectRecord → Exec W Fault (Unit {0}))
  pub detect_conflict : Option (ObjectRecord → W → List Text × W)

pub data RegistryError : Type 0 where
  name_required : RegistryError
  missing_apply missing_plan missing_capture missing_rollback : Text → RegistryError
  missing_detect_conflict missing_validate already_registered : Text → RegistryError
  plugin_required : Text → RegistryError
  not_registered : Text → Text → RegistryError
  invalid_step : Text → Text → Fault → RegistryError

unfoldable pub normalize_plugin_name : Text → Text
normalize_plugin_name name = to_lower (trim_space name)

abbrev require {ℓ} : {A : Type ℓ} → Option A → RegistryError → Result RegistryError A
require none e = err e
require (some a) e = ok a

abbrev require_true : Bool → RegistryError → Result RegistryError (Unit {0})
require_true true e = ok tt
require_true false e = err e

abbrev require_name : Text → Result RegistryError (Unit {0})
require_name [] = err name_required
require_name (c ∷ cs) = ok tt

abbrev checked : {C : Type 0} → Option Fault → Step C → Result RegistryError (Unit {0})
checked none s = ok tt
checked (some f) s = err (invalid_step s.id (plugin_name s) f)

module _ {C W : Type 0} where
  unfoldable pub prepare_plugin : Candidate C W → Result RegistryError (Plugin C W)
  unfolding normalize_plugin_name
  prepare_plugin p = do
    let name = normalize_plugin_name p.name
    require_name name
    apply ← require p.apply (missing_apply name)
    require_true p.plan (missing_plan name)
    capture ← require p.capture (missing_capture name)
    rollback ← require p.rollback (missing_rollback name)
    detect_conflict ← require p.detect_conflict (missing_detect_conflict name)
    validate ← require p.validate (missing_validate name)
    ok (record {
      name = name;
      validate = validate;
      apply = apply;
      capture = capture;
      rollback = rollback;
      detect_conflict = detect_conflict;
    })

  -- The loop over `r.plugins` that looks for a name.
  unfoldable pub find_plugin : Text → List (Plugin C W) → Option (Plugin C W)
  find_plugin name [] = none
  find_plugin name (p ∷ ps) = if p.name == name then some p else find_plugin name ps

  unfoldable pub register :
      Candidate C W → List (Plugin C W) → Result RegistryError (List (Plugin C W))
  register p plugins = do
    prepared ← prepare_plugin p
    elim (find_plugin prepared.name plugins) [
      | none ↦ ok (plugins ++ (prepared ∷ []))
      | some existing ↦ err (already_registered prepared.name)
    ]

  -- (*Registry).Lookup
  unfoldable pub lookup_plugin : List (Plugin C W) → Text → Option (Plugin C W)
  lookup_plugin plugins name = find_plugin (normalize_plugin_name name) plugins

  unfoldable pub require_step_plugin :
      List (Plugin C W) → Step C → Result RegistryError (Plugin C W)
  require_step_plugin plugins step =
      if is_nil (plugin_name step)
      then err (plugin_required step.id)
      else elim (lookup_plugin plugins (plugin_name step)) [
        | none ↦ err (not_registered step.id (plugin_name step))
        | some p ↦ ok p
      ]

  unfoldable pub validate_steps :
      List (Plugin C W) → Map Text → List (Step C) → Result RegistryError (Unit {0})
  validate_steps plugins overrides [] = ok tt
  validate_steps plugins overrides (s ∷ rest) = do
    p ← require_step_plugin plugins s
    checked (p.validate s overrides) s
    validate_steps plugins overrides rest

  -- ValidateProfileSteps: every plugin reads a copy of the overrides, so no call changes them.
  unfoldable pub validate_profile_steps :
      List (Plugin C W) → Map Text → List (ActionFile C) → Result RegistryError (Unit {0})
  validate_profile_steps plugins overrides [] = ok tt
  validate_profile_steps plugins overrides (af ∷ rest) = do
    validate_steps plugins overrides af.steps
    validate_profile_steps plugins overrides rest
