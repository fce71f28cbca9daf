-- ===== src/Policy/Posture.antt =====
-- `evaluate_vm_attestation_posture` of backend/src/policy.rs.
use mcp_host.Prelude.{
  ℕ, ◌-◌, ◌/◌, Bool, true, false, Option, none, some, List, [], ◌∷◌, ◌++◌, String, str_eq, format,
  show_nat, show_int, ltb, ltb_ℤ, pos, ◌||◌, if◌then◌else◌,
}
use mcp_host.Chrono.{second}
use mcp_host.Trust.Tables.{RuntimeVmTrustEvent}
use mcp_host.Policy.Backends.{RuntimeBackend, backend_str}

-- The event comes with its number.
pub record VmAttestationRecord : Type 0 where
  pub instance_id : ℕ
  pub status : String
  pub updated_at : ℕ
  pub terminated_at : Option ℕ
  pub trust_event : Option (ℕ × RuntimeVmTrustEvent)

pub record VmAttestationPolicyOutcome : Type 0 where
  pub notes : List String
  pub backend_override : Option RuntimeBackend
  pub evaluation_required : Bool
  pub attestation_status : Option String
  pub stale : Bool

abbrev optional {ℓ} : {A : Type ℓ} → (A → String) → Option A → List String
optional f none = []
optional f (some a) = f a ∷ []

module _ (to_rfc3339 : ℕ → String) where
  abbrev event_notes : Option (ℕ × RuntimeVmTrustEvent) → List String
  event_notes none = []
  event_notes (some (id, e)) =
      format ("vm:trust-event:" ∷ show_nat id ∷ ":" ∷ e.current_status ∷ [])
        ∷ optional (λ r. format ("vm:trust-reason:" ∷ r ∷ [])) e.transition_reason
      ++ format ("vm:trust-lifecycle:" ∷ e.current_lifecycle_state ∷ [])
        ∷ optional (λ p. format ("vm:trust-previous-lifecycle:" ∷ p ∷ []))
            e.previous_lifecycle_state
      ++ (if ltb_ℤ (pos 0) e.remediation_attempts
          then format ("vm:trust-remediation-attempts:" ∷ show_int e.remediation_attempts ∷ []) ∷ []
          else [])
      ++ optional (λ d. format ("vm:trust-freshness-deadline:" ∷ to_rfc3339 d ∷ []))
          e.freshness_deadline
      ++ optional (λ p. format ("vm:trust-provenance:" ∷ p ∷ [])) e.provenance_ref

  abbrev record_notes : VmAttestationRecord → List String
  record_notes r =
      format ("vm:last-status:" ∷ r.status ∷ [])
        ∷ format ("vm:last-updated:" ∷ to_rfc3339 r.updated_at ∷ [])
        ∷ optional (λ t. format ("vm:last-terminated:" ∷ to_rfc3339 t ∷ [])) r.terminated_at
      ++ event_notes r.trust_event

  abbrev fallback_note : RuntimeBackend → String
  fallback_note b = format ("vm:attestation:fallback:" ∷ backend_str b ∷ [])

  -- A status that was not yet decided: `age` is cut off at 0.
  abbrev undecided :
      (now stale_limit : ℕ) → RuntimeBackend → VmAttestationRecord → VmAttestationPolicyOutcome
  undecided now stale_limit fallback r =
      let age = now - r.updated_at in
      let stale = ltb stale_limit age in
      record {
        notes =
            record_notes r
            ++ format ("vm:attestation:pending:" ∷ show_nat (age / second) ∷ "s" ∷ [])
              ∷ (if stale then "vm:attestation:stale" ∷ fallback_note fallback ∷ [] else []);
        backend_override = if stale then some fallback else none;
        evaluation_required = true;
        attestation_status = some r.status;
        stale = stale;
      }

  unfoldable pub evaluate_vm_attestation_posture :
      Option VmAttestationRecord
      → (now stale_limit : ℕ) → RuntimeBackend
      → VmAttestationPolicyOutcome
  evaluate_vm_attestation_posture none now stale_limit fallback = record {
    notes = "vm:attestation:none" ∷ fallback_note fallback ∷ [];
    backend_override = some fallback;
    evaluation_required = true;
    attestation_status = some "none";
    stale = false;
  }
  evaluate_vm_attestation_posture (some r) now stale_limit fallback =
      if str_eq r.status "trusted"
      then record {
        notes = record_notes r ++ "vm:attestation:trusted" ∷ [];
        backend_override = none;
        evaluation_required = false;
        attestation_status = some r.status;
        stale = false;
      }
      else if str_eq r.status "untrusted"
      then record {
        notes =
            record_notes r
            ++ "vm:attestation:untrusted" ∷ "vm:attestation:blocked" ∷ fallback_note fallback ∷ [];
        backend_override = some fallback;
        evaluation_required = true;
        attestation_status = some r.status;
        stale = false;
      }
      else if str_eq r.status "pending" || str_eq r.status "unknown"
      then undecided now stale_limit fallback r
      else record {
        notes = record_notes r ++ format ("vm:attestation:status:" ∷ r.status ∷ []) ∷ [];
        backend_override = none;
        evaluation_required = false;
        attestation_status = some r.status;
        stale = false;
      }
