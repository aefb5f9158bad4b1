-- ===== src/Pluginapi.antt =====
-- pkg/pluginapi: what plugins and the engine exchange, the keys that pair two captures, the
-- registry, and the helpers that plugins share.
pub mod Records
pub mod Host
pub mod Keys
pub mod Unchanged
pub mod Shell
pub mod Registry
pub mod Modes
pub mod Paths
pub mod Base64
pub mod Probe
pub mod Snapshot
