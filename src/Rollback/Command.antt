-- ===== src/Rollback/Command.antt =====
-- internals/rollback/rollback.go: `rollbackCommand` over what it uses of the world. The connection,
-- the host, the runner's disk and the registered plugins are parameters; the log and the footer
-- are output only. A missing bundle is not a value here.
use hardline.Base.{
  Text, ◌==◌, Bool, true, false, none, some, List, [], ◌∷◌, Result, ok, err, if◌then◌else◌,
  trim_space,
}
use hardline.Base.Exec.{Exec, ◌>>=◌, ◌>>◌, wrapping, lift, deferring}
use hardline.Pluginapi.Host.{Host, Fault}
use hardline.Pluginapi.Registry.{Plugin}
use hardline.Remote.Lock.{LockError, acquire_mutation_lock, release_mutation_lock}
use hardline.Rollback.Journal.{Journal, Status, StepRecord, success, rolling_back}
use hardline.Rollback.Persist.{Codec, Disk, JournalError, save_last, load_last, remove_last}
use hardline.Rollback.Target.{
  TargetError, save_remote_last, load_remote_last, delete_remote_journal,
}
use hardline.Rollback.Execute.{Degraded, RevertError, execute_rollback_steps}
use hardline.Rollback.Conflicts.{RollbackError, preflight_rollback_conflicts}

-- What apply and rollback run against.
pub record Env (C W : Type 0) : Type 0 where
  pub connect : Exec W Fault (Unit {0})
  pub ensure_sudo : Exec W Fault (Unit {0})
  pub host : Host W
  pub disk : Disk W
  pub state_root : Result Fault Text
  pub codec : Codec
  pub plugins : List (Plugin C W)

-- The options of the command line that rollback reads.
pub record Options : Type 0 where
  pub host_name : Text
  pub local_journal : Bool
  pub force_rollback : Bool

pub data CommandError : Type 0 where
  connect_failed sudo_failed : Fault → CommandError
  lock_failed : LockError → CommandError
  read_local claim_local consume_local : JournalError → CommandError
  load_remote claim_remote consume_remote : TargetError → CommandError
  other_host : Text → CommandError
  not_successful : Status → CommandError
  preflight_failed : RollbackError → CommandError
  partly_reverted : RevertError → CommandError
  degraded_restoration : List Degraded → CommandError

-- The `switch` on the status: whether this resumes a rollback, or is refused.
unfoldable pub resume_of : Status → Result CommandError Bool
resume_of success = ok false
resume_of rolling_back = ok true
resume_of s = err (not_successful s)

abbrev same_host : Journal → Text → Result CommandError Journal
same_host j name = if j.host == trim_space name then ok j else err (other_host j.host)

module _ {C W : Type 0} (env : Env C W) where
  unfoldable pub load_rollback_journal : Options → Text → Exec W CommandError Journal
  load_rollback_journal c profile_id =
      if c.local_journal
      then (do
        j ← wrapping read_local (load_last env.codec env.disk env.state_root c.host_name profile_id)
        lift (same_host j c.host_name))
      else wrapping load_remote (load_remote_last env.codec env.host profile_id)

  -- Writes the journal back as `rolling_back`. The journal in hand keeps its old status in the
  -- source if that fails, and the command ends.
  unfoldable pub claim_journal : Options → Journal → Exec W CommandError (Unit {0})
  claim_journal c j =
      let claimed = record j { status = rolling_back } in
      if c.local_journal
      then wrapping claim_local (save_last env.codec env.disk env.state_root claimed)
      else wrapping claim_remote (save_remote_last env.codec env.host claimed)

  unfoldable pub consume_journal : Options → Journal → Exec W CommandError (Unit {0})
  consume_journal c j =
      if c.local_journal
      then wrapping consume_local (remove_last env.codec env.disk env.state_root j)
      else wrapping consume_remote (delete_remote_journal env.codec env.host j.profile_id j.run_id)

  -- The walk as a call that fails if it stops early.
  abbrev pub walk : List StepRecord → Exec W CommandError (List Degraded)
  walk steps w =
      let r = execute_rollback_steps env.plugins steps w in
      (elim r.error [ none ↦ ok r.degraded | some e ↦ err (partly_reverted e) ], r.world)

  abbrev pub fully : List Degraded → Result CommandError (Unit {0})
  fully [] = ok tt
  fully (d ∷ ds) = err (degraded_restoration (d ∷ ds))

  -- What runs under the lock.
  unfoldable pub locked_rollback : Options → Text → Exec W CommandError (Unit {0})
  locked_rollback c profile_id = do
    j ← load_rollback_journal c profile_id
    resuming ← lift (resume_of j.status)
    wrapping preflight_failed
        (preflight_rollback_conflicts env.plugins j.steps c.force_rollback resuming)
    claim_journal c j
    degraded ← walk j.steps
    consume_journal c (record j { status = rolling_back })
    lift (fully degraded)

  unfoldable pub rollback_command : Options → Text → Exec W CommandError (Unit {0})
  rollback_command c profile_id = do
    wrapping connect_failed env.connect
    wrapping sudo_failed env.ensure_sudo
    wrapping lock_failed (acquire_mutation_lock env.host)
    deferring (release_mutation_lock env.host) (locked_rollback c profile_id)
