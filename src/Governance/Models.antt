-- ===== src/Governance/Models.antt =====
-- backend/src/governance/models.rs, and the tables of the governance engine. Rows that are numbered by
-- the database take their numbers in the order of insertion.
use mcp_host.Prelude.{ℕ, Option, List, String, Value, ℤ}

pub data GovernanceWorkflowKind : Type 0 where
  promotion rollback credential_rotation : GovernanceWorkflowKind

-- `running` is the source's `InProgress`.
pub data GovernanceRunStatus : Type 0 where
  pending running completed failed cancelled : GovernanceRunStatus

-- `waiting` is the source's `Pending`, and a `step_` marks the names that a run's status has too.
pub data GovernanceStepStatus : Type 0 where
  waiting step_running step_completed step_failed blocked : GovernanceStepStatus

pub record GovernanceWorkflowStepInput : Type 0 where
  pub action : String
  pub config : Value

pub record CreateGovernanceWorkflow : Type 0 where
  pub name : String
  pub workflow_type : GovernanceWorkflowKind
  pub tier : String
  pub steps : List GovernanceWorkflowStepInput

pub record GovernanceWorkflow : Type 0 where
  pub id : ℕ
  pub owner_id : ℕ
  pub name : String
  pub workflow_type : GovernanceWorkflowKind
  pub tier : String
  pub created_at : ℕ
  pub updated_at : ℕ

pub record GovernanceWorkflowStep : Type 0 where
  pub id : ℕ
  pub workflow_id : ℕ
  pub position : ℤ
  pub action : String
  pub config : Value
  pub created_at : ℕ

pub record StartWorkflowRunRequest : Type 0 where
  pub target_manifest_digest : Option String
  pub target_artifact_run_id : Option ℕ
  pub notes : Option (List String)
  pub promotion_track_id : Option ℕ
  pub promotion_stage : Option String

pub record RunStatusUpdateRequest : Type 0 where
  pub status : GovernanceRunStatus
  pub note : Option String

-- A row of governance_workflow_runs.
pub record WorkflowRun : Type 0 where
  pub id : ℕ
  pub workflow_id : ℕ
  pub initiated_by : Option ℕ
  pub target_artifact_run_id : Option ℕ
  pub target_manifest_digest : Option String
  pub target_tier : String
  pub status : GovernanceRunStatus
  pub notes : List String
  pub policy_decision_id : Option ℕ
  pub promotion_track_id : Option ℕ
  pub promotion_stage : Option String
  pub created_at : ℕ
  pub updated_at : ℕ

-- A row of governance_step_runs.
pub record StepRun : Type 0 where
  pub id : ℕ
  pub workflow_run_id : ℕ
  pub step_id : Option ℕ
  pub status : GovernanceStepStatus
  pub started_at : Option ℕ
  pub completed_at : Option ℕ
  pub error : Option String

-- A row of governance_audit_logs.
pub record AuditLog : Type 0 where
  pub id : ℕ
  pub workflow_run_id : ℕ
  pub actor_id : Option ℕ
  pub event_type : String
  pub details : Option Value
  pub created_at : ℕ

pub record GovernanceStepRunDetail : Type 0 where
  pub id : ℕ
  pub step_id : Option ℕ
  pub action : Option String
  pub status : GovernanceStepStatus
  pub started_at : Option ℕ
  pub completed_at : Option ℕ
  pub error : Option String

pub record GovernanceAuditLogEntry : Type 0 where
  pub id : ℕ
  pub event_type : String
  pub details : Option Value
  pub created_at : ℕ
  pub actor_id : Option ℕ

pub record GovernanceRunDetail : Type 0 where
  pub id : ℕ
  pub workflow_id : ℕ
  pub status : GovernanceRunStatus
  pub notes : List String
  pub target_manifest_digest : Option String
  pub target_tier : String
  pub promotion_track_id : Option ℕ
  pub promotion_stage : Option String
  pub initiated_by : Option ℕ
  pub created_at : ℕ
  pub updated_at : ℕ
  pub steps : List GovernanceStepRunDetail
  pub audit_log : List GovernanceAuditLogEntry

pub record GovernanceDb : Type 0 where
  pub workflows : List GovernanceWorkflow
  pub workflow_steps : List GovernanceWorkflowStep
  pub workflow_runs : List WorkflowRun
  pub step_runs : List StepRun
  pub audit_logs : List AuditLog
