-- ===== src/Cli.antt =====
-- internals/cli: the versions that a profile asks for.
pub mod Version
