-- ===== src/Trust.antt =====
-- The trust registry of confidential VMs: backend/src/policy/trust.rs, backend/src/trust.rs and the
-- tables of backend/src/db/runtime_vm_trust_registry.rs, runtime_vm_trust_history.rs and
-- runtime_vm_attestations.rs.
pub mod Attestation
pub mod Lifecycle
pub mod Tables
pub mod Registry
pub mod Outcome
pub mod Persist
pub mod Versions
pub mod Effects
pub mod Gate
pub mod Blocking
pub mod Placement
pub mod Reaction
pub mod Control
pub mod Transitions
