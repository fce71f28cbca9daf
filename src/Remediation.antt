-- ===== src/Remediation.antt =====
-- backend/src/remediation.rs and backend/src/db/runtime_vm_remediation_runs.rs: the reasons and classes
-- of failures, and the runs.
pub mod Failures
pub mod Runs
