-- ===== src/Trust/Tables.antt =====
-- The tables of the trust registry, and the errors of their statements. Rows keep the columns that the
-- modelled statements read or write.
use mcp_host.Prelude.{ℕ, Option, List, String, Value, ℤ}
use mcp_host.Remediation.Runs.{RunTable}
pub use mcp_host.Sql.{SqlError, row_not_found, column_not_found, column_decode, database}

pub record VmInstance : Type 0 where
  pub id : ℕ
  pub server_id : ℕ
  pub attestation_status : String
  pub attestation_evidence : Option Value
  pub created_at : ℕ
  pub terminated_at : Option ℕ

pub record RuntimeVmTrustRegistryState : Type 0 where
  pub runtime_vm_instance_id : ℕ
  pub attestation_status : String
  pub lifecycle_state : String
  pub remediation_state : Option String
  pub remediation_attempts : ℤ
  pub freshness_deadline : Option ℕ
  pub provenance_ref : Option String
  pub provenance : Option Value
  pub version : ℤ
  pub updated_at : ℕ

pub record RuntimeVmTrustEvent : Type 0 where
  pub runtime_vm_instance_id : ℕ
  pub attestation_id : Option ℕ
  pub previous_status : Option String
  pub current_status : String
  pub previous_lifecycle_state : Option String
  pub current_lifecycle_state : String
  pub transition_reason : Option String
  pub remediation_state : Option String
  pub remediation_attempts : ℤ
  pub freshness_deadline : Option ℕ
  pub provenance_ref : Option String
  pub provenance : Option Value
  pub metadata : Option Value
  pub triggered_at : ℕ

pub record RuntimeVmAttestationRecord : Type 0 where
  pub id : ℕ
  pub runtime_vm_instance_id : ℕ
  pub attestation_kind : String
  pub verification_status : String
  pub raw_quote : Option (List ℕ)
  pub parsed_claims : Option Value
  pub freshness_expires_at : Option ℕ
  pub verified_at : ℕ
  pub verification_notes : List String
  pub remediation_notes : List String

pub record ArtifactRun : Type 0 where
  pub id : ℕ
  pub server_id : ℕ
  pub manifest_digest : Option String
  pub status : String
  pub credential_health_status : String
  pub completed_at : Option ℕ

pub record Certification : Type 0 where
  pub build_artifact_run_id : ℕ
  pub last_attestation_status : Option String
  pub fallback_launched_at : Option ℕ
  pub remediation_attempts : ℤ
  pub governance_notes : Option String
  pub updated_at : ℕ

pub record TrustDb : Type 0 where
  pub instances : List VmInstance
  pub registry : List RuntimeVmTrustRegistryState
  pub history : List RuntimeVmTrustEvent
  pub attestations : List RuntimeVmAttestationRecord
  pub runs : RunTable
  pub artifact_runs : List ArtifactRun
  pub certifications : List Certification
