-- ===== src/Apply.antt =====
-- internals/apply: one step under the journal, the run over all steps, and the apply command.
pub mod Step
pub mod Run
pub mod Recovery
pub mod Journalled
pub mod Recording
pub mod Records
pub mod Command
