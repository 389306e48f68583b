-- ===== src/Dao.antt =====
-- The tables in PostgreSQL and the statements on them: internal/db/dao and internal/az/vfw/dao.
-- A statement is atomic. A violated key is an error of the statement.
pub mod Tasks
pub mod Table
pub mod Vpc
pub mod Subnet
pub mod Pccn
pub mod Policy
