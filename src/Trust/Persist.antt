-- ===== src/Trust/Persist.antt =====
-- `persist_vm_attestation_outcome` of backend/src/policy/trust.rs, statement after statement.
use mcp_host.Prelude.{
  ℕ, not, Option, some, List, [], ◌∷◌, String, format, Value, string, object, no_entry, entry, Exec,
  pure, gets, modify, ◌>>=◌, ◌>>◌, find, ◌==◌,
}
use mcp_host.Trust.Attestation.{status_str, kind_str, AttestationOutcome}
use mcp_host.Trust.Lifecycle.{
  TrustLifecycleState, from_str, lifecycle_str, lifecycle_for_attestation,
}
use mcp_host.Trust.Tables.{
  SqlError, RuntimeVmTrustRegistryState, RuntimeVmTrustEvent, RuntimeVmAttestationRecord, TrustDb,
}
use mcp_host.Trust.Registry.{UpsertRuntimeVmTrustRegistryState, get_state, upsert_state}
use mcp_host.Trust.Outcome.{
  TrustTransition, option_map, and_then, first, or_zero, is_status, text_field, attempts_after,
  insert_attestation, set_instance_status, insert_trust_event, certify,
}

abbrev pub previous_lifecycle : Option RuntimeVmTrustRegistryState → Option TrustLifecycleState
previous_lifecycle registry = and_then (option_map (λ r. r.lifecycle_state) registry) from_str

abbrev pub provenance_ref_of : AttestationOutcome → String
provenance_ref_of o = format ("attestation:" ∷ kind_str o.attestation_kind ∷ [])

abbrev pub metadata_of : AttestationOutcome → Option Value
metadata_of o =
    option_map
      (λ value. object (
        entry "attestation_kind" (string (kind_str o.attestation_kind))
          (entry "claims" value no_entry)))
      o.evidence

-- The registry row that the outcome asks for, given the row that was read.
unfoldable pub registry_input :
    ℕ
    → AttestationOutcome
    → List String
    → Option RuntimeVmTrustRegistryState
    → UpsertRuntimeVmTrustRegistryState
registry_input instance o remediation_notes registry = record {
  runtime_vm_instance_id = instance;
  attestation_status = status_str o.status;
  lifecycle_state =
      lifecycle_str (lifecycle_for_attestation o.status (previous_lifecycle registry));
  remediation_state = first remediation_notes;
  remediation_attempts =
      attempts_after o.status (or_zero (option_map (λ r. r.remediation_attempts) registry));
  freshness_deadline = o.freshness_deadline;
  provenance_ref = some (provenance_ref_of o);
  provenance = metadata_of o;
  expected_version = option_map (λ r. r.version) registry;
}

-- `decode` is the base64 engine, `stamp` is `Utc::now().to_rfc3339()`, and `next_id` the database's
-- next attestation id.
module _ (decode : String → Option (List ℕ)) (stamp : String) (db_now next_id : ℕ) where
  unfoldable pub attestation_row : ℕ → AttestationOutcome → List String → RuntimeVmAttestationRecord
  attestation_row instance o remediation_notes = record {
    id = next_id;
    runtime_vm_instance_id = instance;
    attestation_kind = kind_str o.attestation_kind;
    verification_status = status_str o.status;
    raw_quote = and_then (and_then o.evidence (text_field "raw")) decode;
    parsed_claims = o.evidence;
    freshness_expires_at = o.freshness_deadline;
    verified_at = db_now;
    verification_notes = o.notes;
    remediation_notes = remediation_notes;
  }

  unfoldable pub attestation_event :
      ℕ
      → AttestationOutcome
      → List String
      → Option String
      → Option RuntimeVmTrustRegistryState
      → RuntimeVmAttestationRecord
      → RuntimeVmTrustRegistryState
      → RuntimeVmTrustEvent
  attestation_event instance o remediation_notes previous_status before attestation registry =
      record {
        runtime_vm_instance_id = instance;
        attestation_id = some attestation.id;
        previous_status = previous_status;
        current_status = status_str o.status;
        previous_lifecycle_state = option_map (λ r. r.lifecycle_state) before;
        current_lifecycle_state = registry.lifecycle_state;
        transition_reason = some "attestation";
        remediation_state = first remediation_notes;
        remediation_attempts =
            (registry_input instance o remediation_notes before).remediation_attempts;
        freshness_deadline = o.freshness_deadline;
        provenance_ref = some (provenance_ref_of o);
        provenance = metadata_of o;
        metadata = metadata_of o;
        triggered_at = db_now;
      }

  -- The statements up to the write of the registry.
  unfoldable pub persist_registry :
      ℕ
      → AttestationOutcome
      → List String
      → Exec TrustDb SqlError (
          Option String
          × Option RuntimeVmTrustRegistryState
          × RuntimeVmAttestationRecord
          × RuntimeVmTrustRegistryState)
  persist_registry instance o remediation_notes =
      gets
        (λ db. option_map (λ r. r.attestation_status) (find (λ r. r.id == instance) db.instances))
      >>= λ previous_status. gets (λ db. get_state db instance) >>= λ before.
          insert_attestation (attestation_row instance o remediation_notes) >>= λ attestation.
          modify (set_instance_status instance o)
          >> (upsert_state db_now (registry_input instance o remediation_notes before)
              >>= λ registry. pure (previous_status, before, attestation, registry))

  unfoldable pub persist_vm_attestation_outcome :
      (server instance : ℕ)
      → AttestationOutcome
      → List String
      → Exec TrustDb SqlError TrustTransition
  persist_vm_attestation_outcome server instance o remediation_notes =
      persist_registry instance o remediation_notes
      >>= λ (previous_status, before, attestation, registry).
          insert_trust_event (
            attestation_event instance o remediation_notes previous_status before attestation
              registry)
          >>= λ event.
              modify (
                certify db_now server o.status (
                  format (
                    stamp
                    ∷ " trust:"
                    ∷ kind_str o.attestation_kind
                    ∷ ":"
                    ∷ status_str o.status
                    ∷ [])))
              >> pure (record {
                vm_instance_id = instance;
                server_id = server;
                previous_status = previous_status;
                current_status = status_str o.status;
                previous_lifecycle_state = option_map (λ r. r.lifecycle_state) before;
                lifecycle_state = registry.lifecycle_state;
                posture_changed = not (is_status previous_status (status_str o.status));
                freshness_expires_at = o.freshness_deadline;
                remediation_attempts = registry.remediation_attempts;
                provenance_ref = registry.provenance_ref;
                provenance = registry.provenance;
                attestation = attestation;
                trust_event = event;
              })
