-- ===== src/Plugins/FileMeta/Run.antt =====
-- internals/plugins/filemeta/execution.go: `Apply`.
use hardline.Base.{
  Text, Bool, true, false, not, ◌&&◌, ◌||◌, [], ◌==◌, Result, ok, err, if◌then◌else◌, is_nil,
}
use hardline.Base.Exec.{Exec, ◌>>=◌, ◌>>◌, pure, fail, lift}
use hardline.Pluginapi.Host.{Host}
use hardline.Pluginapi.Records.{FileMetaSnapshot}
use hardline.Plugins.FileMeta.{
  Spec, FileMetaError, does_not_exist, target_of, is_set, manages_attrs, chown_arg,
}
use hardline.Plugins.FileMeta.Metadata.{
  Desired, desired, snapshot_file_meta, apply_managed_attrs, chmod, chown,
}

-- The three comparisons of an apply.
unfoldable pub mode_changes : Spec → FileMetaSnapshot → Desired → Bool
mode_changes s cur d = is_set s.mode && not (d.mode == cur.mode)

unfoldable pub owner_changes : Spec → FileMetaSnapshot → Desired → Bool
owner_changes s cur d =
    (is_set s.owner || is_set s.group) && (not (d.owner == cur.owner) || not (d.group == cur.group))

unfoldable pub attrs_change : Spec → FileMetaSnapshot → Desired → Bool
attrs_change s cur d = manages_attrs s && not (d.attrs == cur.attrs)

module _ {W : Type 0} (host : Host W) where
  abbrev run_if : Bool → Exec W FileMetaError (Unit {0}) → Exec W FileMetaError (Unit {0})
  run_if true m = m
  run_if false m = pure tt

  -- The commands. Managed letters are cleared first, since they stand in the way of the other two.
  unfoldable pub stamp : Spec → Text → FileMetaSnapshot → Desired → Exec W FileMetaError (Unit {0})
  stamp s target cur d =
      let cleared =
        (mode_changes s cur d || owner_changes s cur d)
        && (manages_attrs s && not (is_nil cur.attrs)) in
      (do
        run_if cleared (apply_managed_attrs host target [])
        run_if (mode_changes s cur d) (chmod host d.mode target)
        run_if (owner_changes s cur d) (chown host (chown_arg s) target)
        run_if (manages_attrs s && (attrs_change s cur d || cleared))
            (apply_managed_attrs host target d.attrs))

  unfoldable pub stamp_if_needed :
      Spec → Text → FileMetaSnapshot → Desired → Exec W FileMetaError (Unit {0})
  stamp_if_needed s target cur d =
      if not (mode_changes s cur d) && (not (owner_changes s cur d) && not (attrs_change s cur d))
      then pure tt
      else stamp s target cur d

  abbrev pub stamp_desired :
      Spec
      → Text
      → FileMetaSnapshot
      → Result FileMetaError Desired
      → Exec W FileMetaError (Unit {0})
  stamp_desired s target cur (err e) = fail e
  stamp_desired s target cur (ok d) = stamp_if_needed s target cur d

  -- What follows the snapshot: a path that is not there is an error.
  unfoldable pub stamp_existing : Spec → Text → FileMetaSnapshot → Exec W FileMetaError (Unit {0})
  stamp_existing s target cur =
      if cur.existed
      then stamp_desired s target cur (desired s cur)
      else fail (does_not_exist target)

  unfoldable pub apply : Spec → Exec W FileMetaError (Unit {0})
  apply s = do
    target ← lift (target_of s.path)
    cur ← snapshot_file_meta host target
    stamp_existing s target cur
