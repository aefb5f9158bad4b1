-- ===== src/Remote/Lock.antt =====
-- internals/remote/lock.go: the lock is a directory on the host, taken by a `mkdir` that prints a
-- marker. A missing client, for which the source does nothing, is not a value here.
use hardline.Base.{Text, codes, ◌++◌, Result, ok, err, contains, if◌then◌else◌}
use hardline.Base.Exec.{Exec}
use hardline.Pluginapi.Host.{Host, Fault}
use hardline.Pluginapi.Shell.{shell_arg}

pub data LockError : Type 0 where
  lock_held : LockError
  lock_command_failed unexpected_output : Text → LockError

abbrev pub mutation_lock_dir : Text
mutation_lock_dir = codes "/var/lib/hardline/.apply-lock.d"

abbrev pub lock_taken_marker : Text
lock_taken_marker = codes "hardline-lock-taken"

abbrev pub lock_held_marker : Text
lock_held_marker = codes "hardline-lock-held"

unfoldable pub lock_command : Text
lock_command =
    codes "if { mkdir -p /var/lib/hardline && mkdir "
    ++ (shell_arg mutation_lock_dir
        ++ (codes "; } 2>&1; then echo "
            ++ (lock_taken_marker
                ++ (codes "; elif [ -d "
                    ++ (shell_arg mutation_lock_dir
                        ++ (codes " ]; then echo " ++ (lock_held_marker ++ codes "; fi")))))))

-- The `switch` over what the command printed.
unfoldable pub lock_outcome : Result Fault Text → Result LockError (Unit {0})
lock_outcome (err f) = err (lock_command_failed f)
lock_outcome (ok out) =
    if contains out lock_taken_marker
    then ok tt
    else if contains out lock_held_marker
    then err lock_held
    else err (unexpected_output out)

module _ {W : Type 0} (host : Host W) where
  unfoldable pub acquire_mutation_lock : Exec W LockError (Unit {0})
  unfolding lock_outcome
  acquire_mutation_lock w =
      let (r, w') = host.run_root_with_output lock_command w in (lock_outcome r, w')

  unfoldable pub release_mutation_lock : Exec W Fault (Unit {0})
  release_mutation_lock = host.run_root (codes "rmdir " ++ shell_arg mutation_lock_dir)
