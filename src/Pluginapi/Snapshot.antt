-- ===== src/Pluginapi/Snapshot.antt =====
-- pkg/pluginapi/helpers.go: `SnapshotRemoteFile`, `RestoreFileSnapshot` and `FileSnapshotConflict`. A
-- missing host is not a value here.
pub mod Sound
use hardline.Base.{
  ℕ, ◌+◌, Text, codes, Bool, true, false, not, ◌&&◌, ◌||◌, Option, none, some, List, [], ◌∷◌, ◌++◌,
  ◌==◌, Result, ok, err, if◌then◌else◌, is_nil, ltb, nat_eq, length, split, ℤ, pos, negsuc, atoi,
  quoted,
}
use hardline.Base.Exec.{Exec, ◌>>=◌, ◌>>◌, pure, fail, lift, wrapping}
use hardline.Pluginapi.Host.{Host, Fault}
use hardline.Pluginapi.Shell.{shell_arg}
use hardline.Pluginapi.Records.{FileSnapshot}
use hardline.Pluginapi.Paths.{PathError, enforce_managed_path, dir_rooted}
use hardline.Pluginapi.Modes.{ModeError, parse_file_mode, format_file_mode, has_special_bits}
use hardline.Pluginapi.Base64.{encode_to_string, decode_string}
use hardline.Pluginapi.Probe.{
  StatProbe, parse_stat_probe, stat_probe_prefix, stat_probe_rc_prefix, detail,
}

pub data SnapshotError : Type 0 where
  stat_failed read_failed : Fault → SnapshotError
  no_exit_status : Text → SnapshotError
  stat_status : ℤ → Text → SnapshotError
  no_file_reported is_symlink bad_size : SnapshotError
  unexpected_format not_regular : Text → SnapshotError
  too_large : ℤ → SnapshotError
  wrong_size : ℕ → ℤ → SnapshotError

pub data RestoreError : Type 0 where
  unmanaged : PathError → RestoreError
  bad_mode : ModeError → RestoreError
  no_owner bad_content : RestoreError
  command_failed : Fault → RestoreError

abbrev pub max_snapshot_bytes : ℕ
max_snapshot_bytes = 1048576

unfoldable pub stat_command : Text → Text
stat_command path =
    codes "set +e; LC_ALL=C stat -c "
    ++ (shell_arg (stat_probe_prefix ++ codes "%F|%a|%U|%G|%s")
        ++ (codes " -- "
            ++ (shell_arg path
                ++ (codes " 2>&1; echo \"" ++ (stat_probe_rc_prefix ++ codes "$?\"")))))

-- What `stat` said of a file that is there: its mode, owner, group and size.
pub record StatFields : Type 0 where
  pub mode : Text
  pub owner : Text
  pub group : Text
  pub size : ℤ

abbrev pub exceeds : ℤ → ℕ → Bool
exceeds (pos n) limit = ltb limit n
exceeds (negsuc n) limit = false

abbrev pub is_length : ℕ → ℤ → Bool
is_length n (pos m) = nat_eq n m
is_length n (negsuc m) = false

-- The checks of the five fields.
unfoldable pub check_fields : Text → Text → Text → Text → Text → Result SnapshotError StatFields
check_fields type mode owner group size =
    if type == codes "symbolic link"
    then err is_symlink
    else if not (type == codes "regular file") && not (type == codes "regular empty file")
    then err (not_regular type)
    else (elim (atoi size) [
      | none ↦ err bad_size
      | some n ↦
          if exceeds n max_snapshot_bytes
          then err (too_large n)
          else ok (record { mode = mode; owner = owner; group = group; size = n })
    ])

abbrev pub parse_fields : Text → List Text → Result SnapshotError StatFields
parse_fields line (a ∷ (b ∷ (c ∷ (d ∷ (e ∷ []))))) = check_fields a b c d e
parse_fields line _ = err (unexpected_format line)

unfoldable pub parse_stat_line : Text → Result SnapshotError StatFields
parse_stat_line line = parse_fields line (split b'|' line)

abbrev pub is_int : ℕ → ℤ → Bool
is_int n (pos m) = nat_eq m n
is_int n (negsuc m) = false

abbrev pub some_fields : Result SnapshotError StatFields → Result SnapshotError (Option StatFields)
some_fields (err e) = err e
some_fields (ok f) = ok (some f)

-- What the probe says: nothing is there, or a file with these fields.
unfoldable pub probe_verdict : StatProbe → Result SnapshotError (Option StatFields)
probe_verdict p =
    if not p.complete
    then err (no_exit_status (detail p))
    else if not (is_int 0 p.rc)
    then (if p.not_found && (not p.failed && is_int 1 p.rc)
        then ok none
        else err (stat_status p.rc (detail p)))
    else if is_nil p.stat_line
    then err no_file_reported
    else some_fields (parse_stat_line p.stat_line)

abbrev pub absent : Text → FileSnapshot
absent path = record {
  path = path;
  existed = false;
  mode = [];
  owner = [];
  group = [];
  content_b64 = [];
}

abbrev pub present : Text → StatFields → Text → FileSnapshot
present path f content = record {
  path = path;
  existed = true;
  mode = f.mode;
  owner = f.owner;
  group = f.group;
  content_b64 = encode_to_string content;
}

-- The conflicts of a recorded file with the current one.
unfoldable pub snapshot_conflicts : FileSnapshot → FileSnapshot → List Text
snapshot_conflicts current snap =
    if not snap.existed
    then (if current.existed
        then (snap.path
            ++ codes
                ": journal recorded no file here but one exists now (created since apply); rolling back deletes it")
          ∷ []
        else [])
    else if not current.existed
    then (snap.path
        ++ codes ": journal expects this file to exist but it is now absent (removed since apply)")
      ∷ []
    else (if current.content_b64 == snap.content_b64
        then []
        else (snap.path
            ++ codes
                ": current content differs from what this profile wrote (modified since apply)")
          ∷ [])
      ++ ((if current.mode == snap.mode
            then []
            else (snap.path
                ++ (codes ": mode is "
                    ++ (current.mode
                        ++ (codes " but this profile left it "
                            ++ (snap.mode ++ codes " (changed since apply)")))))
              ∷ [])
          ++ (if current.owner == snap.owner && current.group == snap.group
              then []
              else (snap.path
                  ++ (codes ": owner is "
                      ++ (current.owner
                          ++ (codes ":"
                              ++ (current.group
                                  ++ (codes " but this profile left it "
                                      ++ (snap.owner
                                          ++ (codes ":"
                                              ++ (snap.group
                                                  ++ codes " (changed since apply)")))))))))
                ∷ []))

module _ {W : Type 0} (host : Host W) where
  -- The read, and the check of its length against the size that `stat` gave.
  unfoldable pub read_present : Text → StatFields → Exec W SnapshotError FileSnapshot
  read_present path f = do
    content ← wrapping read_failed (host.read_root_file path)
    (if is_length (length content) f.size
        then pure (present path f content)
        else fail (wrong_size (length content) f.size))

  abbrev pub after_verdict : Text → Option StatFields → Exec W SnapshotError FileSnapshot
  after_verdict path none = pure (absent path)
  after_verdict path (some f) = read_present path f

  unfoldable pub snapshot_remote_file : Text → Exec W SnapshotError FileSnapshot
  snapshot_remote_file path = do
    out ← wrapping stat_failed (host.run_root_with_output (stat_command path))
    verdict ← lift (probe_verdict (parse_stat_probe out path))
    after_verdict path verdict

  abbrev command : Text → Exec W RestoreError (Unit {0})
  command cmd = wrapping command_failed (host.run_root cmd)

  abbrev chmod_special : ℕ → Text → Exec W RestoreError (Unit {0})
  chmod_special mode path =
      if has_special_bits mode
      then command
          (codes "chmod " ++ (shell_arg (format_file_mode mode) ++ (codes " " ++ shell_arg path)))
      else pure tt

  abbrev checked_mode : Text → Result RestoreError ℕ
  checked_mode raw = elim (parse_file_mode raw) [ err e ↦ err (bad_mode e) | ok m ↦ ok m ]

  abbrev checked_owner : FileSnapshot → Result RestoreError (Unit {0})
  checked_owner snap = if is_nil snap.owner || is_nil snap.group then err no_owner else ok tt

  abbrev checked_content : FileSnapshot → Result RestoreError Text
  checked_content snap = elim (decode_string snap.content_b64) [
    | none ↦ err bad_content
    | some t ↦ ok t
  ]

  -- Writing a file back that was there. The directory of a managed path is never empty or `.`.
  unfoldable pub restore_present : FileSnapshot → Exec W RestoreError (Unit {0})
  restore_present snap = do
    mode ← lift (checked_mode snap.mode)
    lift (checked_owner snap)
    content ← lift (checked_content snap)
    command (codes "mkdir -p " ++ shell_arg (dir_rooted snap.path))
    wrapping command_failed (host.write_root_file snap.path content mode)
    command (
        codes "chown "
        ++ (shell_arg (snap.owner ++ (b':' ∷ snap.group)) ++ (codes " " ++ shell_arg snap.path)))
    chmod_special mode snap.path

  abbrev managed : Text → Result RestoreError (Unit {0})
  managed path = elim (enforce_managed_path path) [ err e ↦ err (unmanaged e) | ok x ↦ ok tt ]

  unfoldable pub restore_file_snapshot : FileSnapshot → Exec W RestoreError (Unit {0})
  restore_file_snapshot snap = do
    lift (managed snap.path)
    (if snap.existed then restore_present snap else command (codes "rm -f " ++ shell_arg snap.path))

  abbrev pub conflicts_of : FileSnapshot → Result SnapshotError FileSnapshot → List Text
  conflicts_of snap (err e) = (snap.path ++ codes ": cannot be inspected") ∷ []
  conflicts_of snap (ok current) = snapshot_conflicts current snap

  unfoldable pub file_snapshot_conflict : FileSnapshot → W → List Text × W
  file_snapshot_conflict snap w =
      let (r, w') = snapshot_remote_file snap.path w in (conflicts_of snap r, w')
