-- ===== src/Watcher.antt =====
-- The watcher agent (internal/watcher): its state, the healer and the updater.
pub mod Effects
pub mod Metrics
pub mod State
pub mod Samples
pub mod Healer
pub mod Updater
pub mod Monitor
pub mod Api
