-- ===== src/Trust/Attestation.antt =====
-- Outcomes of attestation, backend/src/runtime/vm/attestation.rs.
use mcp_host.Prelude.{ℕ, Option, List, String, Value}

pub data AttestationStatus : Type 0 where
  trusted untrusted unknown : AttestationStatus

unfoldable pub status_str : AttestationStatus → String
status_str trusted = "trusted"
status_str untrusted = "untrusted"
status_str unknown = "unknown"

pub data AttestationKind : Type 0 where
  tpm amd_sev_snp intel_tdx unknown_kind : AttestationKind

unfoldable pub kind_str : AttestationKind → String
kind_str tpm = "tpm"
kind_str amd_sev_snp = "amd-sev-snp"
kind_str intel_tdx = "intel-tdx"
kind_str unknown_kind = "unknown"

pub record AttestationOutcome : Type 0 where
  pub status : AttestationStatus
  pub evidence : Option Value
  pub notes : List String
  pub attestation_kind : AttestationKind
  pub freshness_deadline : Option ℕ
