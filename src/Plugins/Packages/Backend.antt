-- ===== src/Plugins/Packages/Backend.antt =====
-- internals/plugins/packages/backend.go: the record of a backend, and the checks of a step's config.
-- Reading the config from JSON is not the program's code, so a step comes here as a `Spec`.
use hardline.Base.{Text, Bool, Option, List, [], ◌∷◌}
use hardline.Base.Exec.{Exec, ◌>>=◌, pure}
use hardline.Pluginapi.Host.{Host, Fault}
use hardline.Plugins.Packages.Ops.{SinceError, ModeError}
use hardline.Plugins.Packages.Exec.{LockError, GuardError}
use hardline.Plugins.Packages.Validate.{ListError}

pub data QueryError : Type 0 where
  query_failed : Text → Fault → QueryError
  malformed_answer unexpected_status error_state no_version half_installed :
      Text → Text → QueryError
  incomplete_probe noisy_probe : Text → Text → QueryError
  many_architectures no_status : Text → QueryError

-- What a query answers: `(installed, version, pin)`.
pub record PkgFound : Type 0 where
  pub installed : Bool
  pub version : Text
  pub pin : Text

pub data PreviewError : Type 0 where
  preview_failed : Fault → PreviewError
  no_transaction : Text → PreviewError

pub data PackageError : Type 0 where
  config_required : PackageError
  bad_mode : ModeError → PackageError
  useless_collateral : PackageError
  bad_list : ListError → PackageError
  lock_failed : LockError → PackageError
  infos_failed capture_failed : QueryError → PackageError
  since_failed : SinceError → PackageError
  run_failed : Text → Fault → PackageError
  purge_preview_failed autoremove_preview_failed removal_preview_failed :
      PreviewError → PackageError
  guard_refused : GuardError → PackageError
  name_empty missing_snapshot wrong_kind : PackageError
  refuse_removal : Text → List Text → PackageError
  removal_failed reinstall_failed : Text → Fault → PackageError

pub record Commands : Type 0 where
  pub update : Text
  pub upgrade : Text
  pub install : Text
  pub purge : Text
  pub autoremove : Text
  pub rollback_remove : Text

abbrev pub PackagesPreviewFunc : Type 0 → Type 0
PackagesPreviewFunc W = Host W → List Text → Exec W PreviewError (List Text)

abbrev pub OperationPreviewFunc : Type 0 → Type 0
OperationPreviewFunc W = Host W → Exec W PreviewError (List Text)

pub record Previews (W : Type 0) : Type 0 where
  pub upgrade : OperationPreviewFunc W
  pub install : PackagesPreviewFunc W
  pub purge : PackagesPreviewFunc W
  pub autoremove : OperationPreviewFunc W
  pub rollback_remove : Option (PackagesPreviewFunc W)

pub record Backend (W : Type 0) : Type 0 where
  pub name : Text
  pub name_pattern : Text → Bool
  pub pin_pattern : Text → Bool
  pub check_lock : Host W → Exec W LockError (Unit {0})
  pub query : Host W → Text → Exec W QueryError PkgFound
  pub commands : Commands
  pub previews : Previews W

pub record PkgInfo : Type 0 where
  pub name : Text
  pub installed : Bool

module _ {W : Type 0} (b : Backend W) (host : Host W) where
  unfoldable pub infos : List Text → Exec W QueryError (List PkgInfo)
  infos [] = pure []
  infos (name ∷ rest) = do
    found ← b.query host name
    later ← infos rest
    pure (record { name = name; installed = found.installed } ∷ later)
