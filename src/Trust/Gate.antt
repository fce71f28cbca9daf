-- ===== src/Trust/Gate.antt =====
-- `evaluate_placement_gate` of backend/src/policy/trust.rs. `now` is `Utc::now()`, and
-- `to_rfc3339` the print of a time.
use mcp_host.Prelude.{
  ℕ, Bool, true, false, Option, none, some, List, [], ◌∷◌, ◌++◌, String, str_eq, format, show_nat,
  show_int, ◌==◌, leb, ltb_ℤ, ◌&&◌, ◌||◌, not, if◌then◌else◌, select, latest, ℤ, pos, Result, ok,
  err,
}
use mcp_host.Remediation.Failures.{
  RemediationFailureReason, cancelled, RemediationFailureClassification, structural, transient,
  cancelled_class, class_str, reason_str, classification, parse,
}
use mcp_host.Remediation.Runs.{
  RuntimeVmRemediationRun, RunTable, get_active_run_for_instance, last_run,
}
use mcp_host.Trust.Tables.{SqlError, VmInstance, RuntimeVmTrustRegistryState, TrustDb}
use mcp_host.Trust.Registry.{get_state}
use mcp_host.Trust.Outcome.{option_map, and_then, or_zero}

pub record TrustPlacementGate : Type 0 where
  pub vm_instance_id : ℕ
  pub attestation_status : Option String
  pub lifecycle_state : Option String
  pub remediation_state : Option String
  pub remediation_attempts : ℤ
  pub freshness_deadline : Option ℕ
  pub provenance_ref : Option String
  pub blocked : Bool
  pub stale : Bool
  pub notes : List String

unfoldable pub blocked_status : TrustPlacementGate → String
blocked_status gate = if gate.stale then "pending-attestation" else "pending-remediation"

pub record RemediationFailureSummary : Type 0 where
  pub reason : RemediationFailureReason
  pub classification : RemediationFailureClassification
  pub completed_at : Option ℕ

pub record RemediationGateContext : Type 0 where
  pub active_run : Option RuntimeVmRemediationRun
  pub awaiting_approval : Bool
  pub last_failure : Option RemediationFailureSummary

abbrev summary_of : Option ℕ → RemediationFailureReason → RemediationFailureSummary
summary_of completed_at reason = record {
  reason = reason;
  classification = classification reason;
  completed_at = completed_at;
}

-- `match status.as_str()` on the last run.
unfoldable pub failure_of : RuntimeVmRemediationRun → Option RemediationFailureSummary
failure_of r =
    if str_eq r.status "failed"
    then option_map (summary_of r.completed_at) (and_then r.failure_reason parse)
    else if str_eq r.status "cancelled"
    then some (summary_of r.completed_at cancelled)
    else none

unfoldable pub last_failure_of : RunTable → ℕ → Option RemediationFailureSummary
last_failure_of runs instance = and_then (last_run runs instance) failure_of

abbrev pub awaits : Option RuntimeVmRemediationRun → Bool
awaits none = false
awaits (some r) = r.approval_required && str_eq r.approval_state "pending"

abbrev pub is_none {ℓ} : {A : Type ℓ} → Option A → Bool
is_none none = true
is_none (some a) = false

abbrev pub gate_context :
    Option RuntimeVmRemediationRun
    → Option RemediationFailureSummary
    → Option RemediationGateContext
gate_context run failure =
    if is_none run && not (awaits run) && is_none failure
    then none
    else some (record { active_run = run; awaiting_approval = awaits run; last_failure = failure })

abbrev pub with_context :
    Option RemediationFailureSummary
    → Result (Option RuntimeVmRemediationRun) SqlError
    → Result (Option RemediationGateContext) SqlError
with_context failure (ok run) = ok (gate_context run failure)
with_context failure (err e) = err e

unfoldable pub remediation_gate_for_instance :
    RunTable → ℕ → Result (Option RemediationGateContext) SqlError
remediation_gate_for_instance runs instance =
    with_context (last_failure_of runs instance) (get_active_run_for_instance runs instance)

-- ORDER BY vmi.created_at DESC LIMIT 1 of the server's instances that are not terminated
unfoldable pub current_instance : TrustDb → ℕ → Option VmInstance
current_instance db server =
    latest (λ r. r.created_at)
      (select (λ r. (r.server_id == server) && is_none r.terminated_at) db.instances)

-- What the gate has gathered so far: whether it blocks, whether it is stale, and its notes.
pub record Findings : Type 0 where
  pub blocked : Bool
  pub stale : Bool
  pub notes : List String

abbrev pub note : List String → Findings → Findings
note pieces f = record f { notes = f.notes ++ format pieces ∷ [] }

abbrev pub block : Findings → Findings
block f = record f { blocked = true }

abbrev pub note_some : String → Option String → Findings → Findings
note_some label none f = f
note_some label (some s) f = note (label ∷ s ∷ []) f

unfoldable pub lifecycle_blocks : String → Bool
lifecycle_blocks s = str_eq s "quarantined" || str_eq s "remediating"

abbrev pub check_lifecycle : Option String → Findings → Findings
check_lifecycle none f = f
check_lifecycle (some s) f =
    let noted = note ("trust:lifecycle:" ∷ s ∷ []) f in
    if lifecycle_blocks s then block noted else noted

abbrev pub check_attempts : ℤ → Findings → Findings
check_attempts n f =
    if ltb_ℤ (pos 0) n then note ("trust:remediation-attempts:" ∷ show_int n ∷ []) f else f

abbrev pub check_run : Option RuntimeVmRemediationRun → Bool → Findings → Findings
check_run (some r) awaiting f =
    let noted =
      block (
        note ("policy_hook:remediation_gate=active-run:" ∷ show_nat r.id ∷ ":" ∷ r.status ∷ [])
          f) in
    if awaiting then note ("remediation:awaiting-approval:" ∷ show_nat r.id ∷ []) noted else noted
check_run none awaiting f =
    if awaiting then note ("policy_hook:remediation_gate=awaiting-approval" ∷ []) (block f) else f

abbrev pub class_blocks : RemediationFailureClassification → Bool
class_blocks structural = true
class_blocks transient = true
class_blocks cancelled_class = false

module _ (now : ℕ) (to_rfc3339 : ℕ → String) where
  abbrev pub check_deadline : Option ℕ → Findings → Findings
  check_deadline none f = f
  check_deadline (some deadline) f =
      if leb deadline now
      then note ("trust:freshness-expired:" ∷ to_rfc3339 deadline ∷ [])
          (record f { stale = true; blocked = true })
      else note ("trust:freshness-deadline:" ∷ to_rfc3339 deadline ∷ []) f

  abbrev pub note_completed : String → Option ℕ → Findings → Findings
  note_completed reason none f = f
  note_completed reason (some t) f =
      note ("remediation:last-failure-at:" ∷ reason ∷ ":" ∷ to_rfc3339 t ∷ []) f

  abbrev pub check_failure : Option RemediationFailureSummary → Findings → Findings
  check_failure none f = f
  check_failure (some s) f =
      let noted = note_completed (reason_str s.reason) s.completed_at (
        note
          ("policy_hook:remediation_gate=failure:"
            ∷ reason_str s.reason
            ∷ ":"
            ∷ class_str s.classification
            ∷ [])
          f) in
      if class_blocks s.classification then block noted else noted

  abbrev pub check_context : Option RemediationGateContext → Findings → Findings
  check_context none f = f
  check_context (some c) f =
      check_failure c.last_failure (check_run c.active_run c.awaiting_approval f)

  -- The findings before the runs are read.
  abbrev pub registry_findings : VmInstance → Option RuntimeVmTrustRegistryState → Findings
  registry_findings vm registry =
      note_some "trust:provenance:" (and_then registry (λ r. r.provenance_ref)) (
        check_attempts (or_zero (option_map (λ r. r.remediation_attempts) registry)) (
          note_some "trust:remediation-state:" (and_then registry (λ r. r.remediation_state)) (
            check_deadline (and_then registry (λ r. r.freshness_deadline)) (
              check_lifecycle (option_map (λ r. r.lifecycle_state) registry) (
                note_some "trust:attestation:" (some vm.attestation_status)
                  (record { blocked = false; stale = false; notes = [] }))))))

  abbrev pub placement_gate :
      VmInstance → Option RuntimeVmTrustRegistryState → Findings → TrustPlacementGate
  placement_gate vm registry f = record {
    vm_instance_id = vm.id;
    attestation_status = some vm.attestation_status;
    lifecycle_state = option_map (λ r. r.lifecycle_state) registry;
    remediation_state = and_then registry (λ r. r.remediation_state);
    remediation_attempts = or_zero (option_map (λ r. r.remediation_attempts) registry);
    freshness_deadline = and_then registry (λ r. r.freshness_deadline);
    provenance_ref = and_then registry (λ r. r.provenance_ref);
    blocked = f.blocked;
    stale = f.stale;
    notes = f.notes;
  }

  abbrev pub gate_result :
      VmInstance
      → Option RuntimeVmTrustRegistryState
      → Result (Option RemediationGateContext) SqlError
      → Result (Option TrustPlacementGate) SqlError
  gate_result vm registry (ok context) =
      ok (some (placement_gate vm registry (check_context context (registry_findings vm registry))))
  gate_result vm registry (err e) = err e

  unfoldable pub evaluate_placement_gate : TrustDb → ℕ → Result (Option TrustPlacementGate) SqlError
  evaluate_placement_gate db server = elim (current_instance db server) [
    | none ↦ ok none
    | some vm ↦ gate_result vm (get_state db vm.id) (remediation_gate_for_instance db.runs vm.id)
  ]
