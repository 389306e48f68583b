-- ===== src/Top.antt =====
-- The top layer: its tables (internal/top/vpc/dao, internal/top/pccn/dao), the registry of the zones
-- (internal/top/registry), and its orchestrator (internal/top/orchestrator), with what it does in the
-- background for a resource of several zones.
pub mod World
pub mod Status
pub mod Range
pub mod Vpc
pub mod Subnets
pub mod Pccn
pub mod PccnWatch
pub mod Rules
pub mod Watch
pub mod Registry
pub mod Orchestrator
pub mod Create
pub mod Connect
mod Tests
