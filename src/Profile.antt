-- ===== src/Profile.antt =====
-- pkg/profile: the checks of a profile's steps.
pub mod Graph
