-- ===== src/Rollback.antt =====
-- internals/rollback: the journal, the decision which steps to revert, the conflict check, the
-- reverse walk, and the rollback command.
pub mod Journal
pub mod Execute
pub mod Persist
pub mod Integrity
pub mod Atomic
pub mod Target
pub mod Command
pub mod Conflicts
pub mod Order
pub mod Restore
pub mod Preflight
pub mod Safety
pub mod Automatic
pub mod Finish
pub mod Newest
