-- ===== src/Examples.antt =====
-- Runs of the model and its theorems at concrete data.
pub mod Billing
pub mod Trust
pub mod Promotions
pub mod Governance
pub mod Keys
pub mod Servers
pub mod Policy
pub mod Marketplace
