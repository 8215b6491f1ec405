-- ===== src/Orchestrator.antt =====
-- internal/orchestrator: how the client starts, undoes and removes members.
pub mod Disks
pub mod Fixtures
pub mod Start
pub mod Cluster
pub mod Laws
pub mod Rollback
pub mod Detached
pub mod Stores
mod Tests
