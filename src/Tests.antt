-- ===== src/Tests.antt =====
-- A small host, disk and plugin, and the theorems at concrete inputs on them.
mod Fixture
mod Rollbacks
mod Runs
mod Checks
mod Commands
mod Helpers
mod Packages
