-- ===== src/Rollback/Finish.antt =====
-- What a rollback command that succeeds has done.
use hardline.Base.{Text, ◌≡◌, ◌⊎◌, true, false, Bool, ok}
use hardline.Rollback.Journal.{Journal, success, rolling_back}
use hardline.Rollback.Execute.{execute_rollback_steps}
use hardline.Rollback.Order.{revert_order}
use hardline.Rollback.Restore.{Runs, calls_of}
use hardline.Rollback.Conflicts.{preflight_rollback_conflicts}
use hardline.Rollback.Command.{Env, Options, load_rollback_journal, claim_journal, consume_journal}

module _ {C W : Type 0} (env : Env C W) where
  -- What a rollback that succeeds went through, for the journal `j` and the world `v` that the
  -- claim leaves.
  pub record Reverted (c : Options) (profile_id : Text) (w : W) : Type 0 where
    pub journal : Journal
    pub loaded : (load_rollback_journal env c profile_id w).0 ≡ ok journal
    pub resuming : Bool
    pub accepted :
        ((journal.status ≡ success) × (resuming ≡ false))
        ⊎ ((journal.status ≡ rolling_back) × (resuming ≡ true))
    pub checked : W
    pub passed :
        preflight_rollback_conflicts env.plugins journal.steps c.force_rollback resuming
          (load_rollback_journal env c profile_id w).1
        ≡ (ok tt, checked)
    pub claimed : (claim_journal env c journal checked).0 ≡ ok tt
    pub reverted :
        Runs env.plugins
          (calls_of (revert_order journal.steps))
          (claim_journal env c journal checked).1
          (execute_rollback_steps env.plugins journal.steps
            (claim_journal env c journal checked).1).world
    pub consumed :
        (consume_journal env c
          (record journal { status = rolling_back })
          (execute_rollback_steps env.plugins journal.steps
            (claim_journal env c journal checked).1).world).0
        ≡ ok tt
