-- ===== src/Plugins/Packages/Run.antt =====
-- internals/plugins/packages/backend.go: `apply`. The runner's clock is a parameter.
use hardline.Base.{
  Text, codes, Bool, true, false, not, ◌||◌, List, ◌++◌, Result, ok, err, if◌then◌else◌, is_nil,
  has_prefix, any,
}
use hardline.Base.Exec.{Exec, ◌>>=◌, ◌>>◌, pure, lift, wrapping}
use hardline.Pluginapi.Host.{Host}
use hardline.Plugins.Packages.{Spec}
use hardline.Plugins.Packages.Ops.{
  should_run, mark_ran, needs_would_change, state_last_update, state_last_upgrade,
  state_last_autoremove,
}
use hardline.Plugins.Packages.Names.{unexpected_removals}
use hardline.Plugins.Packages.Exec.{
  run_root, append_packages, guard_purge_transaction, refuse_autoremove,
}
use hardline.Plugins.Packages.Backend.{
  Backend, PackageError, PkgInfo, infos, lock_failed, infos_failed, since_failed, run_failed,
  purge_preview_failed, autoremove_preview_failed, guard_refused,
}

unfoldable pub would_change : List PkgInfo → List PkgInfo → Bool
would_change install_infos purge_infos =
    any (λ i. not i.installed) install_infos || any (λ i. i.installed) purge_infos

module _ {W : Type 0} (b : Backend W) (host : Host W) (now : W → Text) where
  unfoldable pub asked_change : Spec → Exec W PackageError Bool
  asked_change s =
      if needs_would_change s.update s.upgrade s.autoremove
      then (do
        install_infos ← wrapping infos_failed (infos b host s.install)
        purge_infos ← wrapping infos_failed (infos b host s.purge)
        pure (would_change install_infos purge_infos))
      else pure false

  -- A mode that counts the time since the last run leaves its mark.
  abbrev pub mark : Text → Text → Exec W PackageError (Unit {0})
  mark mode file w = (ok tt, if has_prefix mode (codes "if_") then mark_ran host now file w else w)

  abbrev pub run_command : Text → Text → Exec W PackageError (Unit {0})
  run_command failure cmd = wrapping (run_failed failure) (run_root host cmd)

  abbrev pub run_marked : Bool → Text → Text → Text → Text → Exec W PackageError (Unit {0})
  run_marked true mode file cmd failure = run_command failure cmd >> mark mode file
  run_marked false mode file cmd failure = pure tt

  -- One turn of the loop over the update and the upgrade.
  unfoldable pub run_op : Text → Text → Text → Text → Bool → Exec W PackageError (Unit {0})
  run_op mode file cmd failure change = do
    run ← wrapping since_failed (should_run host mode file change)
    run_marked run mode file cmd failure

  unfoldable pub run_install : Spec → Exec W PackageError (Unit {0})
  run_install s =
      if is_nil s.install
      then pure tt
      else run_command (codes "package install failed")
          (append_packages b.commands.install s.install)

  -- The guard and the purge, after the preview.
  abbrev pub guarded_purge : Spec → List Text → Exec W PackageError (Unit {0})
  guarded_purge s preview = do
    wrapping guard_refused (lift (guard_purge_transaction s.purge s.purge_also_removes preview))
    run_command (codes "package purge failed") (append_packages b.commands.purge s.purge)

  unfoldable pub run_purge : Spec → Exec W PackageError (Unit {0})
  run_purge s =
      if is_nil s.purge
      then pure tt
      else (wrapping purge_preview_failed (b.previews.purge host s.purge) >>= guarded_purge s)

  abbrev pub guard_autoremove : Spec → List Text → Result PackageError (Unit {0})
  guard_autoremove s preview =
      let extra = unexpected_removals (s.purge ++ s.purge_also_removes) preview in
      if is_nil extra then ok tt else err (guard_refused (refuse_autoremove s.purge extra))

  abbrev pub guarded_autoremove : Spec → List Text → Exec W PackageError (Unit {0})
  guarded_autoremove s preview = do
    lift (guard_autoremove s preview)
    run_marked true s.autoremove state_last_autoremove b.commands.autoremove
        (codes "package autoremove failed")

  unfoldable pub autoremove_now : Spec → Exec W PackageError (Unit {0})
  autoremove_now s =
      wrapping autoremove_preview_failed (b.previews.autoremove host) >>= guarded_autoremove s

  unfoldable pub run_autoremove : Spec → Bool → Exec W PackageError (Unit {0})
  run_autoremove s change = do
    run ← wrapping since_failed (should_run host s.autoremove state_last_autoremove change)
    (if run then autoremove_now s else pure tt)

  unfoldable pub apply : Spec → Exec W PackageError (Unit {0})
  apply s = do
    wrapping lock_failed (b.check_lock host)
    change ← asked_change s
    run_op s.update state_last_update b.commands.update (codes "package index update failed") change
    run_op s.upgrade state_last_upgrade b.commands.upgrade (codes "package upgrade failed") change
    run_install s
    run_purge s
    run_autoremove s change
