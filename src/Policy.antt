-- ===== src/Policy.antt =====
-- The runtime policy: backend/src/policy.rs, with what it uses of backend/src/marketplace.rs and
-- backend/src/evaluations.rs.
pub mod Artifacts
pub mod Backends
pub mod Posture
pub mod Certifications
pub mod Checks
pub mod Decision
pub mod Selected
pub mod Reasons
pub mod Clear
