-- ===== src/Plugins/Packages/Config.antt =====
-- internals/plugins/packages/backend.go: the checks of a step's config.
use hardline.Base.{codes, Bool, not, ◌&&◌, [], ◌==◌, Result, ok, err, ◌>>◌, if◌then◌else◌, is_nil}
use hardline.Plugins.Packages.{Spec}
use hardline.Plugins.Packages.Ops.{validate_op_mode}
use hardline.Plugins.Packages.Exec.{may_run}
use hardline.Plugins.Packages.Validate.{validate_names, validate_lists, validate_purge_collateral}
use hardline.Plugins.Packages.Backend.{
  Backend, PackageError, config_required, bad_mode, useless_collateral, bad_list,
}

abbrev checked :
    {E : Type 0} → (E → PackageError) → Result E (Unit {0}) → Result PackageError (Unit {0})
checked f (ok a) = ok a
checked f (err e) = err (f e)

module _ {W : Type 0} (b : Backend W) where
  abbrev collateral_used : Spec → Result PackageError (Unit {0})
  collateral_used s =
      if not (is_nil s.purge_also_removes) && (is_nil s.purge && not (may_run s.autoremove))
      then err useless_collateral
      else ok tt

  unfoldable pub validate : Spec → Result PackageError (Unit {0})
  validate s = do
    checked bad_mode (validate_op_mode (codes "update") s.update)
    checked bad_mode (validate_op_mode (codes "upgrade") s.upgrade)
    checked bad_mode (validate_op_mode (codes "autoremove") s.autoremove)
    collateral_used s
    checked bad_list (validate_purge_collateral s.install s.purge s.purge_also_removes)
    checked bad_list (validate_names b.name_pattern s.purge_also_removes)
    checked bad_list (validate_lists b.name_pattern s.install s.purge)

  abbrev asks_nothing : Spec → Bool
  asks_nothing s =
      s.update == []
      && (s.upgrade == [] && (s.autoremove == [] && (is_nil s.install && is_nil s.purge)))

  -- What `decode` checks of a config that it could read.
  unfoldable pub decode : Spec → Result PackageError Spec
  decode s =
      if asks_nothing s
      then err config_required
      else (elim (validate s) [ err e ↦ err e | ok x ↦ ok s ])
