-- ===== src/Sync.antt =====
-- cpp/sync: the contract that a schema declares, and the phases that use it.
pub mod Contract
pub mod Pull
pub mod Guard
pub mod Push
pub mod Orchestrator
pub mod Stores
pub mod Relations
pub mod Metadata
pub mod Queue
pub mod Applier
