-- ===== src/Remote.antt =====
-- internals/remote: the mutation lock that keeps two runs off one host.
pub mod Lock
