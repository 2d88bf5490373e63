-- ===== src/Warden.antt =====
-- The warden (internal/warden): the store of the events of all agents, its heartbeats, and ingestion.
pub mod Store
pub mod Ring
pub mod Server
pub mod Agents
pub mod Access
mod Tests
