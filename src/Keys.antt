-- ===== src/Keys.antt =====
-- Provider keys: backend/src/keys/models.rs, events.rs, policy.rs and service.rs.
pub mod Models
pub mod Events
pub mod Register
pub mod Rotation
pub mod Sla
pub mod Bindings
pub mod Summary
pub mod Lifecycle
pub mod Revoked
pub mod Deadlines
