-- ===== src/Plugins.antt =====
-- internals/plugins: the plugins that ship with the program.
pub mod Service
pub mod Packages
pub mod FileMeta
