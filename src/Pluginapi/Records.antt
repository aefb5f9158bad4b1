-- ===== src/Pluginapi/Records.antt =====
-- pkg/pluginapi/registry.go: the records that a capture holds and a journal keeps. A pointer field
-- is an `Option`. The five kinds that the code names are constructors; any other text that a
-- journal may carry is an `unknown_kind`.
use hardline.Base.{Text, ◌≡◌, ◌↔◌, Bool, true, false, Option, List, arith}
use native.Mathlib.Decide.{ℕ_discrete}

pub record FileSnapshot : Type 0 where
  pub path : Text
  pub existed : Bool
  pub mode : Text
  pub owner : Text
  pub group : Text
  pub content_b64 : Text

pub record FileMetaSnapshot : Type 0 where
  pub path : Text
  pub existed : Bool
  pub mode : Text
  pub owner : Text
  pub group : Text
  pub attrs : Text

pub record ServiceState : Type 0 where
  pub unit : Text
  pub enabled : Bool
  pub active : Bool
  pub enabled_state : Text
  pub active_state : Text
  pub known : Bool

pub record ServiceReload : Type 0 where
  pub action : Text
  pub restart_policy : Text
  pub restart_deps : List Text

pub record PackageState : Type 0 where
  pub name : Text
  pub was_installed : Bool
  pub version : Text
  pub pin_spec : Text
  pub requested_install : Bool
  pub requested_purge : Bool

pub record RuntimePolicy : Type 0 where
  pub name : Text
  pub state : Text

pub data ObjectKind : Type 0 where
  object_file object_file_meta object_service object_package object_runtime_policy : ObjectKind
  unknown_kind : Text → ObjectKind

pub record ObjectRecord : Type 0 where
  pub kind : ObjectKind
  pub file : Option FileSnapshot
  pub file_meta : Option FileMetaSnapshot
  pub service : Option ServiceState
  pub pkg : Option PackageState
  pub runtime_policy : Option RuntimePolicy
  pub message : Text

-- The rollback mode is a text in the source; any text but the four constants is `unknown_mode`.
pub data RollbackMode : Type 0 where
  mode_deterministic mode_best_effort mode_noop mode_irreversible : RollbackMode
  unknown_mode : Text → RollbackMode

pub record CaptureResult : Type 0 where
  pub rollback_mode : RollbackMode
  pub objects : List ObjectRecord
  pub notes : List Text
  pub reload : Option ServiceReload

pub record PlanResult : Type 0 where
  pub summary : Text
  pub details : List Text
  pub diff : List Text
  pub will_change : Bool
  pub operator_summary : Text
  pub highlights : List Text
  pub rollback_fidelity : RollbackMode

-- Records are compared by all their fields. The engine compares their JSON, which says the same:
-- the encoder is injective on records of ASCII texts.
records_discrete : Discrete (List ObjectRecord)
unfolding ℕ_discrete
records_discrete = hlevel ℕ_discrete

unfoldable pub records_eq : List ObjectRecord → List ObjectRecord → Bool
unfolding records_discrete
records_eq xs ys = elim (records_discrete xs ys) [ yes _ ↦ true | no _ ↦ false ]

pub records_eq_iff : (xs ys : List ObjectRecord) → (records_eq xs ys ≡ true) ↔ (xs ≡ ys)
unfolding records_eq
records_eq_iff xs ys = ground arith
