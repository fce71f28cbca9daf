-- ===== src/Marketplace.antt =====
-- The providers' submissions of backend/src/marketplace.rs, with their evaluations and promotion gates.
pub mod Models
pub mod Posture
pub mod Handlers
pub mod Rows
pub mod Changed
pub mod Entitled
pub mod Accountable
