-- ===== src/Billing.antt =====
-- backend/src/billing: plans and subscriptions, quotas over usage windows, and the renewal scheduler.
pub mod Models
pub mod Windows
pub mod Service
pub mod Usage
pub mod Subscriptions
pub mod Scheduler
pub mod Rows
pub mod Candidates
pub mod Steps
pub mod Ticks
pub mod Renewal
pub mod Ledger
pub mod Lookup
pub mod Quota
pub mod Requests
pub mod Overflow
