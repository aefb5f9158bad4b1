-- ===== src/Apply/Command.antt =====
-- internals/apply/apply.go: the command `Apply`. The connection, the check of the host's system, the
-- embedded version and the clock's texts are parameters; a missing bundle is not a value here.
use hardline.Base.{
  is_negative, ℕ, Text, Bool, Option, List, [], Result, ok, err, if◌then◌else◌, Map, ltb,
}
use hardline.Base.Exec.{Exec, ◌>>=◌, ◌>>◌, wrapping, lift, deferring, wrap_result}
use hardline.Pluginapi.Host.{Fault}
use hardline.Pluginapi.Registry.{ActionFile, RegistryError, validate_profile_steps}
use hardline.Remote.Lock.{LockError, acquire_mutation_lock, release_mutation_lock}
use hardline.Rollback.Journal.{Journal, success, failed}
use hardline.Rollback.Persist.{JournalError, new_journal, save_last, remove_last}
use hardline.Rollback.Target.{TargetError, save_remote_last}
use hardline.Rollback.Command.{Env}
use hardline.Cli.Version.{VersionError, compare_sem_ver}
use hardline.Apply.Step.{Run}
use hardline.Apply.Run.{RunError, apply_profile}

-- What the command reads of a profile.
pub record Bundle (C : Type 0) : Type 0 where
  pub id : Text
  pub min_hardline : Text
  pub profile_schema : ℕ
  pub action_files : List (ActionFile C)
  pub overrides : Map Text

-- The options of the command line, the program's own version, and the texts of the clock.
pub record Setting (W : Type 0) : Type 0 where
  pub host_name : Text
  pub profile_path : Text
  pub keep_local_rollback : Bool
  pub check_remote_os : Exec W Fault (Unit {0})
  pub version : Result Fault (Text × ℕ)
  pub run_id : Text
  pub created_at : Text
  pub poll : W → Option Fault × W

pub data ApplyError : Type 0 where
  connect_failed sudo_failed os_incompatible version_unknown : Fault → ApplyError
  lock_failed : LockError → ApplyError
  invalid_min_hardline : VersionError → ApplyError
  too_old newer_schema : ApplyError
  invalid_steps : RegistryError → ApplyError
  local_journal_failed : JournalError → ApplyError
  run_failed : RunError → Result JournalError (Unit {0}) → ApplyError
  target_journal_failed : TargetError → Result JournalError (Unit {0}) → ApplyError

-- The checks of the profile's version and schema against the program's.
unfoldable pub version_allowed : {C : Type 0} → Bundle C → Text × ℕ → Result ApplyError (Unit {0})
version_allowed b (version, schema) = elim (compare_sem_ver version b.min_hardline) [
  | err e ↦ err (invalid_min_hardline e)
  | ok cmp ↦
      if is_negative cmp
      then err too_old
      else if ltb schema b.profile_schema
      then err newer_schema
      else ok tt
]

module _ {C W : Type 0} (env : Env C W) (o : Setting W) (b : Bundle C) where
  -- What is done with the runner's journal once the target has its own; errors are only logged.
  unfoldable pub settle_local : Journal → W → W
  settle_local j w =
      if o.keep_local_rollback
      then (save_last env.codec env.disk env.state_root j w).1
      else (remove_last env.codec env.disk env.state_root j w).1

  unfoldable pub after_target :
      Journal → Result TargetError (Unit {0}) → Exec W ApplyError (Unit {0})
  after_target j (ok x) w = (ok tt, settle_local j w)
  after_target j (err e) w =
      let (saved, w') = save_last env.codec env.disk env.state_root j w in
      (err (target_journal_failed e saved), w')

  -- What follows the run over the steps.
  unfoldable pub after_run : Result RunError (Unit {0}) → Journal → Exec W ApplyError (Unit {0})
  after_run (err e) j w =
      let (saved, w') =
        save_last env.codec env.disk env.state_root (record j { status = failed }) w in
      (err (run_failed e saved), w')
  after_run (ok x) j w =
      let done = record j { status = success } in
      let (r, w') = save_remote_last env.codec env.host done w in after_target done r w'

  abbrev pub started : W → Run W
  unfolding new_journal
  started w = record {
    journal = new_journal o.run_id o.created_at o.host_name b.id o.profile_path;
    changes = [];
    world = w;
  }

  unfoldable pub journalled_run : Exec W ApplyError (Unit {0})
  journalled_run w =
      let (r, s) = apply_profile env b.overrides o.poll b.action_files (started w) in
      after_run r s.journal s.world

  -- What runs under the lock.
  unfoldable pub locked_apply : Exec W ApplyError (Unit {0})
  locked_apply = do
    wrapping os_incompatible o.check_remote_os
    own ← lift (wrap_result version_unknown o.version)
    lift (version_allowed b own)
    lift (wrap_result invalid_steps (validate_profile_steps env.plugins b.overrides b.action_files))
    (λ w.
        wrapping local_journal_failed
          (save_last env.codec env.disk env.state_root (started w).journal) w)
    journalled_run

  unfoldable pub apply_command : Exec W ApplyError (Unit {0})
  apply_command = do
    wrapping connect_failed env.connect
    wrapping sudo_failed env.ensure_sudo
    wrapping lock_failed (acquire_mutation_lock env.host)
    deferring (release_mutation_lock env.host) locked_apply
