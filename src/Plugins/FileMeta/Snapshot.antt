-- ===== src/Plugins/FileMeta/Snapshot.antt =====
-- internals/plugins/filemeta: `Capture`, `restoreFileMeta` and `fileMetaConflict`, and the handlers
-- `Rollback` and `DetectConflict` around the last two.
use hardline.Base.{
  Text, codes, not, ◌||◌, Option, none, some, List, [], ◌∷◌, ◌++◌, ◌==◌, Result, ok, err,
  if◌then◌else◌, trim_space,
}
use hardline.Base.Exec.{Exec, ◌>>=◌, ◌>>◌, pure, fail, lift, wrapping}
use hardline.Pluginapi.Host.{Host}
use hardline.Pluginapi.Shell.{shell_arg}
use hardline.Pluginapi.Records.{
  FileMetaSnapshot, CaptureResult, ObjectRecord, object_file_meta, mode_deterministic,
}
use hardline.Plugins.FileMeta.{
  Spec, FileMetaError, no_longer_exists, missing_snapshot, wrong_kind, target_of, is_set,
}
use hardline.Plugins.FileMeta.Metadata.{snapshot_file_meta, apply_managed_attrs, chmod, chown}

abbrev pub meta_record : FileMetaSnapshot → ObjectRecord
meta_record snap = record {
  kind = object_file_meta;
  file = none;
  file_meta = some snap;
  service = none;
  pkg = none;
  runtime_policy = none;
  message = [];
}

-- The conflict of recorded metadata with the current one.
unfoldable pub metadata_conflicts : FileMetaSnapshot → FileMetaSnapshot → List Text
metadata_conflicts after current =
    if not current.existed
    then (after.path
        ++ codes ": journal expects path to exist but it is now absent (changed since apply)")
      ∷ []
    else if not (current.mode == after.mode)
        || (not (current.owner == after.owner)
            || (not (current.group == after.group) || not (current.attrs == after.attrs)))
    then (after.path
        ++ codes
            ": metadata (mode/owner/group/attrs) differs from what this profile set (modified since apply)")
      ∷ []
    else []

abbrev conflicts_of : FileMetaSnapshot → Result FileMetaError FileMetaSnapshot → List Text
conflicts_of after (err e) =
    (after.path ++ codes ": journal expects path to exist but its metadata cannot be read") ∷ []
conflicts_of after (ok current) = metadata_conflicts after current

module _ {W : Type 0} (host : Host W) where
  unfoldable pub capture : Spec → Exec W FileMetaError CaptureResult
  capture s = do
    target ← lift (target_of s.path)
    snap ← snapshot_file_meta host target
    pure (record {
      rollback_mode = mode_deterministic;
      objects = meta_record snap ∷ [];
      notes = [];
      reload = none;
    })

  abbrev restore_owner : FileMetaSnapshot → Exec W FileMetaError (Unit {0})
  restore_owner snap =
      if is_set snap.owner || is_set snap.group
      then chown host (trim_space snap.owner ++ (b':' ∷ trim_space snap.group)) snap.path
      else pure tt

  unfoldable pub restore_existing : FileMetaSnapshot → Exec W FileMetaError (Unit {0})
  restore_existing snap = do
    wrapping (λ e. no_longer_exists snap.path)
        (host.run_root (codes "test -e " ++ shell_arg snap.path))
    apply_managed_attrs host snap.path []
    (if is_set snap.mode then chmod host snap.mode snap.path else pure tt)
    restore_owner snap
    apply_managed_attrs host snap.path snap.attrs

  unfoldable pub restore_file_meta : FileMetaSnapshot → Exec W FileMetaError (Unit {0})
  restore_file_meta snap = do
    target ← lift (target_of snap.path)
    (if snap.existed then restore_existing snap else pure tt)

  unfoldable pub file_meta_conflict : FileMetaSnapshot → W → List Text × W
  file_meta_conflict after w =
      if after.existed
      then (let (r, w') = snapshot_file_meta host after.path w in (conflicts_of after r, w'))
      else ([], w)

  abbrev rollback_meta : Option FileMetaSnapshot → Exec W FileMetaError (Unit {0})
  rollback_meta none = fail missing_snapshot
  rollback_meta (some snap) = restore_file_meta snap

  unfoldable pub rollback : ObjectRecord → Exec W FileMetaError (Unit {0})
  rollback o = elim o.kind [ object_file_meta ↦ rollback_meta o.file_meta | _ ↦ fail wrong_kind ]

  unfoldable pub detect_conflict : ObjectRecord → W → List Text × W
  detect_conflict o w = elim o.kind [
    | object_file_meta ↦ (elim o.file_meta [
      | none ↦ ([], w)
      | some snap ↦ file_meta_conflict snap w
    ])
    | _ ↦ ([], w)
  ]
