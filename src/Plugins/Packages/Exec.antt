-- ===== src/Plugins/Packages/Exec.antt =====
-- internals/plugins/packages/exec.go: commands with packages, the lock of the package manager, the
-- guard of a purge, and the names that a capture reads.
use hardline.Base.{
  ℕ, Text, codes, Bool, not, ◌&&◌, List, [], ◌∷◌, ◌++◌, ◌==◌, Result, ok, err, if◌then◌else◌,
  is_nil, length, map, join, trim_space, has_prefix, drop, text_gt,
}
use hardline.Base.Exec.{Exec, ◌>>=◌, pure, lift, wrapping}
use hardline.Pluginapi.Host.{Host, Fault}
use hardline.Pluginapi.Shell.{shell_arg}
use hardline.Pluginapi.Probe.{first_lines}
use hardline.Plugins.Packages.Names.{unexpected_removals}

-- sshTimeout, in nanoseconds: the 1800 seconds of a command and five minutes.
abbrev ssh_timeout : ℕ
ssh_timeout = 2100000000000

unfoldable pub timeout_cmd : Text → Text
timeout_cmd tail = codes "timeout 1800 " ++ tail

unfoldable pub append_packages : Text → List Text → Text
append_packages cmd pkgs = cmd ++ (codes " " ++ join (map shell_arg pkgs) (codes " "))

abbrev lock_probe_marker : Text
lock_probe_marker = codes "HL-LOCK:"

abbrev proc_lock_holders : Text → Text
proc_lock_holders joined =
    codes
      "{ [ -d /proc/1/fd ] || { echo 'cannot read /proc to check the package manager lock, and fuser is not installed (package psmisc)' >&2; exit 3; }; for fd in /proc/[0-9]*/fd/*; do target=$(readlink \"$fd\" 2>/dev/null) || continue; target=${target%\" (deleted)\"}; for lock in "
    ++ (joined
        ++ codes
            "; do case \"$target\" in $lock) pid=${fd#/proc/}; pid=${pid%%/*}; printf '%s ' \"$pid\"; break;; esac; done; done; }")

-- The check of the paths panics when the program starts, and is not a value here.
unfoldable pub lock_probe : List Text → Text
lock_probe paths =
    (codes "printf '%s' "
      ++ (shell_arg lock_probe_marker
          ++ (codes "; if command -v fuser >/dev/null 2>&1; then fuser "
              ++ (join paths (codes " ")
                  ++ (codes " 2>/dev/null; else "
                      ++ (proc_lock_holders (join (map shell_arg paths) (codes " "))
                          ++ codes "; fi; echo"))))))

pub data LockError : Type 0 where
  lock_check_failed : Fault → LockError
  no_verdict : Text → LockError
  lock_held : Text → Text → LockError

-- What the probe printed: no process holds the lock, or these do.
unfoldable pub lock_verdict : Text → Text → Result LockError (Unit {0})
lock_verdict hint out =
    let pids = trim_space (drop (length lock_probe_marker) (trim_space out)) in
    if not (has_prefix (trim_space out) lock_probe_marker)
    then err (no_verdict (first_lines out 3))
    else if is_nil pids
    then ok tt
    else err (lock_held pids hint)

pub data GuardError : Type 0 where
  refuse_purge refuse_autoremove : List Text → List Text → GuardError

unfoldable pub guard_purge_transaction :
    List Text → List Text → List Text → Result GuardError (Unit {0})
guard_purge_transaction purge also_removes preview =
    let extra = unexpected_removals (purge ++ also_removes) preview in
    if is_nil extra then ok tt else err (refuse_purge purge extra)

-- The names without spaces around them, but for empty ones.
unfoldable pub trimmed_names : List Text → List Text
trimmed_names [] = []
trimmed_names (raw ∷ rest) =
    let later = trimmed_names rest in
    if is_nil (trim_space raw) then later else trim_space raw ∷ later

-- The keys of a set of names in ascending order: each name goes to its place, and only once.
unfoldable pub insert_name : Text → List Text → List Text
insert_name name [] = name ∷ []
insert_name name (other ∷ l) =
    let rest = insert_name name l in
    if name == other
    then other ∷ l
    else if text_gt name other
    then other ∷ rest
    else name ∷ (other ∷ l)

unfoldable pub sorted_names : List Text → List Text
sorted_names [] = []
sorted_names (name ∷ l) = insert_name name (sorted_names l)

pub record TargetNames : Type 0 where
  pub names : List Text
  pub install : List Text
  pub purge : List Text

unfoldable pub targets : List Text → List Text → TargetNames
targets install_list purge_list =
    let i = trimmed_names install_list in
    let p = trimmed_names purge_list in
    record { names = sorted_names (i ++ p); install = i; purge = p }

-- A mode with which an operation may run.
abbrev pub may_run : Text → Bool
may_run mode = not (mode == []) && not (mode == codes "never")

abbrev note_if : Text → Text → List Text
note_if mode note = if may_run mode then note ∷ [] else []

unfoldable pub capture_notes : Text → Text → Text → List Text
capture_notes update upgrade autoremove =
    note_if update (codes "package index update is not directly reversible")
    ++ (note_if upgrade (codes "package upgrade rollback is best-effort")
        ++ note_if autoremove (codes "autoremove rollback is best-effort"))

module _ {W : Type 0} (host : Host W) where
  -- The command with the long timeout, for its success only.
  unfoldable pub run_root : Text → Exec W Fault (Unit {0})
  run_root cmd = host.run_root_with_timeout cmd ssh_timeout >>= λ _. pure tt

  unfoldable pub check_lock : Text → Text → Exec W LockError (Unit {0})
  check_lock probe hint = do
    out ← wrapping lock_check_failed (host.run_root_with_output probe)
    lift (lock_verdict hint out)
