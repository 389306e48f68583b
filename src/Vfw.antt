-- ===== src/Vfw.antt =====
-- internal/az/vfw/orchestrator/orchestrator.go: the orchestrator of the firewall policies of a zone.
pub mod Orchestrator
pub mod Compensation
pub mod Compensated
pub mod Agrees
pub mod Deleted
mod Tests
