-- ===== src/Az.antt =====
-- internal/az/orchestrator/orchestrator.go: the services of one availability zone.
pub mod Orchestrator
pub mod Stores
pub mod Create
pub mod Tests
pub mod Delete
pub mod Deleted
pub mod Status
pub mod Replay
pub mod Compensation
pub mod Compensated
pub mod Completed
pub mod Routed
pub mod Revived
