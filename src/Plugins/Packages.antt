-- ===== src/Plugins/Packages.antt =====
-- internals/plugins/packages: the plugins for package managers. A backend is a record of commands,
-- patterns and functions, as in the source; what a package manager prints is the host's. A missing
-- host or a missing function of a backend is not a value here.
pub mod Ops
pub mod Names
pub mod Validate
pub mod Exec
pub mod Backend
pub mod Config
pub mod Run
pub mod Snapshot
pub mod Rpm
pub mod Dnf
pub mod Apt
pub mod Report
pub mod Render
pub mod Plan
pub mod Decisions
pub mod Lists
pub mod Named
pub mod Since
pub mod Guarded
pub mod Removal
pub mod Settled
pub mod Effects
use hardline.Base.{Text, List}

pub record Spec : Type 0 where
  pub update : Text
  pub upgrade : Text
  pub autoremove : Text
  pub install : List Text
  pub purge : List Text
  pub purge_also_removes : List Text
