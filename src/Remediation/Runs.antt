-- ===== src/Remediation/Runs.antt =====
-- The runs of backend/src/db/runtime_vm_remediation_runs.rs. The columns that only carry payloads and
-- analytics are left out of the row.
use mcp_host.Prelude.{
  ℕ, Bool, Option, none, some, List, [], ◌∷◌, String, ◌==◌, str_eq, ◌&&◌, ◌||◌, select, latest, any,
  if◌then◌else◌, Result, ok, err,
}
use mcp_host.Sql.{SqlError, column_not_found}

pub record RuntimeVmRemediationRun : Type 0 where
  pub id : ℕ
  pub runtime_vm_instance_id : ℕ
  pub playbook : String
  pub status : String
  pub approval_required : Bool
  pub approval_state : String
  pub started_at : ℕ
  pub completed_at : Option ℕ
  pub last_error : Option String
  pub failure_reason : Option String
  pub version : ℕ
  pub updated_at : ℕ

abbrev pub RunTable : Type 0
RunTable = List RuntimeVmRemediationRun

unfoldable pub in_flight : ℕ → RuntimeVmRemediationRun → Bool
in_flight instance r =
    r.runtime_vm_instance_id == instance && (str_eq r.status "pending" || str_eq r.status "running")

-- WHERE runtime_vm_instance_id = $1 AND status IN ('pending', 'running') ORDER BY started_at DESC LIMIT 1
unfoldable pub active_run : RunTable → ℕ → Option RuntimeVmRemediationRun
active_run runs instance = latest (λ r. r.started_at) (select (in_flight instance) runs)

-- The columns that `get_active_run_for_instance` selects.
abbrev pub selected_columns : List String
selected_columns =
    "id" ∷ "runtime_vm_instance_id" ∷ "playbook" ∷ "playbook_id" ∷ "status" ∷ "automation_payload"
    ∷ "approval_required" ∷ "started_at" ∷ "completed_at" ∷ "last_error" ∷ "assigned_owner_id"
    ∷ "sla_deadline" ∷ "approval_state" ∷ "approval_decided_at" ∷ "approval_notes" ∷ "metadata"
    ∷ "workspace_id" ∷ "workspace_revision_id" ∷ "promotion_gate_context" ∷ "version" ∷ "updated_at"
    ∷ "cancelled_at" ∷ "cancellation_reason" ∷ "failure_reason" ∷ []

-- The fields of the struct, which its derived `FromRow` reads by their names in this order.
abbrev pub struct_columns : List String
struct_columns =
    "id" ∷ "runtime_vm_instance_id" ∷ "playbook" ∷ "playbook_id" ∷ "status" ∷ "automation_payload"
    ∷ "approval_required" ∷ "started_at" ∷ "completed_at" ∷ "last_error" ∷ "assigned_owner_id"
    ∷ "sla_deadline" ∷ "approval_state" ∷ "approval_decided_at" ∷ "approval_notes" ∷ "metadata"
    ∷ "workspace_id" ∷ "workspace_revision_id" ∷ "promotion_gate_context" ∷ "version" ∷ "updated_at"
    ∷ "cancelled_at" ∷ "cancellation_reason" ∷ "failure_reason" ∷ "analytics_duration_ms"
    ∷ "analytics_execution_started_at" ∷ "analytics_execution_completed_at"
    ∷ "analytics_retry_count" ∷ "analytics_retry_ledger" ∷ "analytics_override_actor_id"
    ∷ "analytics_artifact_hash" ∷ "analytics_promotion_verdict_id" ∷ []

-- The first of the fields that is not among the selected columns.
abbrev pub missing_column : List String → List String → Option String
missing_column [] columns = none
missing_column (f ∷ fs) columns =
    let rest = missing_column fs columns in if any (str_eq f) columns then rest else some f

abbrev row_of : RuntimeVmRemediationRun → Option String → Result RuntimeVmRemediationRun SqlError
row_of r none = ok r
row_of r (some f) = err (column_not_found f)

-- `FromRow::from_row`: a field without a column ends it with `ColumnNotFound`.
unfoldable pub from_row :
    List String → RuntimeVmRemediationRun → Result RuntimeVmRemediationRun SqlError
from_row columns r = row_of r (missing_column struct_columns columns)

abbrev pub decoded :
    Result RuntimeVmRemediationRun SqlError → Result (Option RuntimeVmRemediationRun) SqlError
decoded (ok r) = ok (some r)
decoded (err e) = err e

unfoldable pub get_active_run_for_instance :
    RunTable → ℕ → Result (Option RuntimeVmRemediationRun) SqlError
get_active_run_for_instance runs instance = elim (active_run runs instance) [
  | none ↦ ok none
  | some r ↦ decoded (from_row selected_columns r)
]

-- The last run of an instance, in whatever state.
unfoldable pub last_run : RunTable → ℕ → Option RuntimeVmRemediationRun
last_run runs instance =
    latest (λ r. r.started_at) (select (λ r. r.runtime_vm_instance_id == instance) runs)
