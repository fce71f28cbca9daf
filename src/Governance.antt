-- ===== src/Governance.antt =====
-- Governance workflows: backend/src/governance/models.rs and backend/src/governance/engine.rs.
pub mod Models
pub mod Runs
pub mod Status
pub mod Ready
pub mod Started
pub mod Settled
pub mod Gate
