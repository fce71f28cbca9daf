-- ===== src/Servers.antt =====
-- The handlers of backend/src/servers.rs that start, stop and delete servers.
pub mod Handlers
pub mod Webhooks
pub mod Requests
pub mod Twice
