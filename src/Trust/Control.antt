-- ===== src/Trust/Control.antt =====
-- The manual transition of the trust registry, `transition_registry_state` of backend/src/trust.rs. The
-- view that is answered keeps the registry's own columns; `owner_of` is the owner of a server.
use mcp_host.Prelude.{
  ℕ, Bool, false, not, Option, none, some, [], ◌∷◌, String, Value, str_eq, format, show_int, trim,
  to_lowercase, ◌==◌, ltb, ◌||◌, if◌then◌else◌, find, ℤ, pos, ltb_ℤ, eq_ℤ, Result, ok, err,
}
use mcp_host.Trust.Tables.{SqlError, row_not_found, RuntimeVmTrustRegistryState, TrustDb}
use mcp_host.Trust.Registry.{ApplyRuntimeVmTrustTransition, get_state, apply_transition}
use mcp_host.Trust.Outcome.{option_map, and_then, or_zero}
use mcp_host.Error.{AppError, db, not_found, forbidden, bad_request, conflict}

pub record TrustRegistryTransitionRequest : Type 0 where
  pub attestation_status : String
  pub lifecycle_state : String
  pub remediation_state : Option String
  pub remediation_attempts : Option ℤ
  pub freshness_deadline : Option ℕ
  pub provenance_ref : Option String
  pub provenance : Option Value
  pub transition_reason : Option String
  pub metadata : Option Value
  pub expected_version : Option ℤ

pub record TrustRegistryView : Type 0 where
  pub state : RuntimeVmTrustRegistryState
  pub stale : Bool

unfoldable pub compute_stale : (now : ℕ) → Option ℕ → Bool
compute_stale now none = false
compute_stale now (some ts) = ltb ts now

unfoldable pub normalize_attestation_status : String → Option String
normalize_attestation_status value =
    let normalized = to_lowercase (trim value) in
    if str_eq normalized "trusted" || str_eq normalized "untrusted" || str_eq normalized "unknown"
    then some normalized
    else none

unfoldable pub normalize_lifecycle_state : String → Option String
normalize_lifecycle_state value =
    let normalized = to_lowercase (trim value) in
    if str_eq normalized "suspect"
      || str_eq normalized "quarantined"
      || str_eq normalized "remediating"
      || str_eq normalized "restored"
    then some normalized
    else none

-- `match (expected_version, context.version)`
unfoldable pub check_version : Option ℤ → Option ℤ → Result (Option ℤ) AppError
check_version (some expected) (some current) =
    if eq_ℤ expected current
    then ok (some expected)
    else err (
        conflict (
          format (
            "trust registry version mismatch: expected "
            ∷ show_int expected
            ∷ ", found "
            ∷ show_int current
            ∷ [])))
check_version none (some current) = err (
    conflict
      (format ("trust registry version required; current version is " ∷ show_int current ∷ [])))
check_version value none = ok value

abbrev or_manual : Option String → String
or_manual none = "manual"
or_manual (some s) = s

abbrev pub or_value {ℓ} : {A : Type ℓ} → Option A → A → A
or_value none a = a
or_value (some b) a = b

module _ (owner_of : ℕ → Option ℕ) where
  -- VM_CONTEXT_QUERY: the owner of the VM's server, and the registry's row if there is one
  unfoldable pub load_vm_context : TrustDb → ℕ → Option (ℕ × Option RuntimeVmTrustRegistryState)
  load_vm_context tables instance =
      and_then (find (λ r. r.id == instance) tables.instances)
        (λ r. option_map (λ owner. (owner, get_state tables instance)) (owner_of r.server_id))

  unfoldable pub fetch_registry_view_for_vm :
      (now : ℕ) → TrustDb → ℕ → ℕ → Result TrustRegistryView AppError
  fetch_registry_view_for_vm now tables user instance = elim (load_vm_context tables instance) [
    | none ↦ err not_found
    | some (owner, none) ↦ err not_found
    | some (owner, some r) ↦
        if owner == user
        then ok (record { state = r; stale = compute_stale now r.freshness_deadline })
        else err not_found
  ]

  abbrev pub transition_input :
      ℕ
      → TrustRegistryTransitionRequest
      → (status lifecycle : String) → Option RuntimeVmTrustRegistryState
      → ℤ
      → Option ℤ
      → ApplyRuntimeVmTrustTransition
  transition_input instance p status lifecycle registry attempts version = record {
    state = record {
      runtime_vm_instance_id = instance;
      attestation_status = status;
      lifecycle_state = lifecycle;
      remediation_state = p.remediation_state;
      remediation_attempts = attempts;
      freshness_deadline = p.freshness_deadline;
      provenance_ref = p.provenance_ref;
      provenance = p.provenance;
      expected_version = version;
    };
    previous_status = option_map (λ r. r.attestation_status) registry;
    previous_lifecycle_state = option_map (λ r. r.lifecycle_state) registry;
    transition_reason = or_manual p.transition_reason;
    metadata = p.metadata;
  }

  abbrev pub applied :
      (now : ℕ)
      → (user instance : ℕ) → Result RuntimeVmTrustRegistryState SqlError × TrustDb
      → Result TrustRegistryView AppError × TrustDb
  applied now user instance (ok r, tables) =
      (fetch_registry_view_for_vm now tables user instance, tables)
  applied now user instance (err row_not_found, tables) =
      (err (conflict "trust registry version mismatch during update"), tables)
  applied now user instance (err e, tables) = (err (db e), tables)

  -- The guards of the handler, and the statement's input where they let it pass.
  unfoldable pub prepare :
      (user instance : ℕ)
      → TrustRegistryTransitionRequest
      → TrustDb
      → Result ApplyRuntimeVmTrustTransition AppError
  prepare user instance p tables = elim (normalize_attestation_status p.attestation_status) [
    | none ↦
        err
          (bad_request (format ("invalid attestation_status '" ∷ p.attestation_status ∷ "'" ∷ [])))
    | some status ↦ elim (normalize_lifecycle_state p.lifecycle_state) [
      | none ↦
          err (bad_request (format ("invalid lifecycle_state '" ∷ p.lifecycle_state ∷ "'" ∷ [])))
      | some lifecycle ↦ elim (load_vm_context tables instance) [
        | none ↦ err not_found
        | some (owner, registry) ↦
            let attempts =
              or_value p.remediation_attempts
                (or_zero (option_map (λ r. r.remediation_attempts) registry)) in
            if not (owner == user)
            then err forbidden
            else if ltb_ℤ attempts (pos 0)
            then err (bad_request "remediation_attempts must be non-negative")
            else elim (check_version p.expected_version (option_map (λ r. r.version) registry)) [
              | err e ↦ err e
              | ok version ↦
                  ok (transition_input instance p status lifecycle registry attempts version)
            ]
      ]
    ]
  ]

  unfoldable pub transition_registry_state :
      (now db_now : ℕ)
      → (user instance : ℕ) → TrustRegistryTransitionRequest
      → TrustDb
      → Result TrustRegistryView AppError × TrustDb
  transition_registry_state now db_now user instance p tables =
      elim (prepare user instance p tables) [
        | err e ↦ (err e, tables)
        | ok input ↦ applied now user instance (apply_transition db_now input tables)
      ]
