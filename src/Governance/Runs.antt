-- ===== src/Governance/Runs.antt =====
-- backend/src/governance/engine.rs: workflows, the start of a run and its detail. `db_now` is the
-- database's `NOW()`; the numbers of new rows are arguments.
use mcp_host.Prelude.{
  as_i32, ℕ, suc, ◌+◌, Bool, Option, none, some, List, [], ◌∷◌, ◌++◌, map, String, ◌==◌, str_eq,
  ltb, ◌&&◌, ◌||◌, if◌then◌else◌, to_lowercase, find, any, select, order_by, ltb_ℤ, Result, ok, err,
}
use mcp_host.Trust.Outcome.{and_then, option_map}
use mcp_host.Governance.Models.{
  GovernanceWorkflowStepInput, CreateGovernanceWorkflow, GovernanceWorkflow, GovernanceWorkflowStep,
  StartWorkflowRunRequest, WorkflowRun, StepRun, AuditLog, GovernanceStepRunDetail,
  GovernanceAuditLogEntry, GovernanceRunDetail, GovernanceDb, pending, waiting,
}
use mcp_host.Promotions.Signals.{PromotionStatus, active, ArtifactPromotion, PromotionDb}

-- A failure of the database itself is not modelled here.
pub data GovernanceError : Type 0 where
  not_found forbidden : GovernanceError

-- its `Display`
abbrev pub error_str : GovernanceError → String
error_str not_found = "workflow not found"
error_str forbidden = "workflow access denied"

-- The promotions at a stage of a track for a digest, and how the tables are written.
abbrev pub at_place : ℕ → String → String → ArtifactPromotion → Bool
at_place track stage digest p =
    (p.promotion_track_id == track) && str_eq p.stage stage && str_eq p.manifest_digest digest

abbrev pub is_active : PromotionStatus → Bool
is_active active = Bool.true
is_active _ = Bool.false

abbrev pub set_promotions : List ArtifactPromotion → PromotionDb → PromotionDb
set_promotions rows db = record db { promotions = rows }

abbrev pub set_governance : GovernanceDb → PromotionDb → PromotionDb
set_governance tables db = record db { governance = tables }

unfoldable pub list_workflows : ℕ → GovernanceDb → List GovernanceWorkflow
list_workflows owner g =
    order_by (λ w v. ltb w.id v.id) (select (λ w. w.owner_id == owner) g.workflows)

abbrev pub step_rows :
    (db_now next_step : ℕ) → ℕ → ℕ → List GovernanceWorkflowStepInput → List GovernanceWorkflowStep
step_rows db_now next_step workflow idx [] = []
step_rows db_now next_step workflow idx (s ∷ ss) =
    record {
      id = next_step;
      workflow_id = workflow;
      -- `(idx + 1) as i32`
      position = as_i32 (idx + 1);
      action = s.action;
      config = s.config;
      created_at = db_now;
    }
    ∷ step_rows db_now (suc next_step) workflow (suc idx) ss

unfoldable pub create_workflow :
    (db_now next_id next_step : ℕ)
    → ℕ
    → CreateGovernanceWorkflow
    → GovernanceDb
    → GovernanceWorkflow × GovernanceDb
create_workflow db_now next_id next_step owner payload g =
    let workflow : GovernanceWorkflow = record {
      id = next_id;
      owner_id = owner;
      name = payload.name;
      workflow_type = payload.workflow_type;
      tier = payload.tier;
      created_at = db_now;
      updated_at = db_now;
    } in
    (
      workflow,
      record g {
        workflows = g.workflows ++ workflow ∷ [];
        workflow_steps = g.workflow_steps ++ step_rows db_now next_step next_id 0 payload.steps;
      },
    )

-- JOIN governance_workflows w ON w.id = workflow_id WHERE w.owner_id = $2
abbrev pub owned_workflow : GovernanceDb → ℕ → ℕ → Bool
owned_workflow g owner workflow = any (λ w. (w.id == workflow) && (w.owner_id == owner)) g.workflows

abbrev pub by_id : StepRun → StepRun → Bool
by_id a b = ltb a.id b.id

abbrev pub step_detail : GovernanceDb → StepRun → GovernanceStepRunDetail
step_detail g r = record {
  id = r.id;
  step_id = r.step_id;
  action =
      and_then r.step_id
        (λ id. option_map (λ s. s.action) (find (λ s. s.id == id) g.workflow_steps));
  status = r.status;
  started_at = r.started_at;
  completed_at = r.completed_at;
  error = r.error;
}

abbrev log_before : AuditLog → AuditLog → Bool
log_before a b = ltb a.created_at b.created_at || (a.created_at == b.created_at) && ltb a.id b.id

abbrev audit_log_of : GovernanceDb → ℕ → List GovernanceAuditLogEntry
audit_log_of g run =
    map
      (λ l. record {
        id = l.id;
        event_type = l.event_type;
        details = l.details;
        created_at = l.created_at;
        actor_id = l.actor_id;
      })
      (order_by log_before (select (λ l. l.workflow_run_id == run) g.audit_logs))

abbrev pub steps_of : GovernanceDb → ℕ → List GovernanceStepRunDetail
steps_of g run =
    map (step_detail g) (order_by by_id (select (λ r. r.workflow_run_id == run) g.step_runs))

abbrev pub detail_of : GovernanceDb → WorkflowRun → GovernanceRunDetail
detail_of g r = record {
  id = r.id;
  workflow_id = r.workflow_id;
  status = r.status;
  notes = r.notes;
  target_manifest_digest = r.target_manifest_digest;
  target_tier = r.target_tier;
  promotion_track_id = r.promotion_track_id;
  promotion_stage = r.promotion_stage;
  initiated_by = r.initiated_by;
  created_at = r.created_at;
  updated_at = r.updated_at;
  steps = steps_of g r.id;
  audit_log = audit_log_of g r.id;
}

abbrev pub own_run : GovernanceDb → ℕ → ℕ → WorkflowRun → Bool
own_run g owner run r = (r.id == run) && owned_workflow g owner r.workflow_id

unfoldable pub fetch_run_detail : ℕ → ℕ → GovernanceDb → Result GovernanceRunDetail GovernanceError
fetch_run_detail run owner g = elim (find (own_run g owner run) g.workflow_runs) [
  | none ↦ err not_found
  | some r ↦ ok (detail_of g r)
]

abbrev or_no_notes : Option (List String) → List String
or_no_notes none = []
or_no_notes (some l) = l

abbrev pub run_row :
    (db_now next_run : ℕ) → ℕ → GovernanceWorkflow → StartWorkflowRunRequest → WorkflowRun
run_row db_now next_run owner w q = record {
  id = next_run;
  workflow_id = w.id;
  initiated_by = some owner;
  target_artifact_run_id = q.target_artifact_run_id;
  target_manifest_digest = q.target_manifest_digest;
  target_tier = w.tier;
  status = pending;
  notes = or_no_notes q.notes;
  policy_decision_id = none;
  promotion_track_id = q.promotion_track_id;
  promotion_stage = option_map to_lowercase q.promotion_stage;
  created_at = db_now;
  updated_at = db_now;
}

abbrev pub step_run_rows : (next_step : ℕ) → ℕ → List GovernanceWorkflowStep → List StepRun
step_run_rows next_step run [] = []
step_run_rows next_step run (s ∷ ss) =
    record {
      id = next_step;
      workflow_run_id = run;
      step_id = some s.id;
      status = waiting;
      started_at = none;
      completed_at = none;
      error = none;
    }
    ∷ step_run_rows (suc next_step) run ss

-- The steps of a workflow, ORDER BY position
unfoldable pub ordered_steps : GovernanceDb → ℕ → List GovernanceWorkflowStep
ordered_steps g workflow =
    order_by (λ s t. ltb_ℤ s.position t.position)
      (select (λ s. s.workflow_id == workflow) g.workflow_steps)

-- The transaction of `start_workflow_run`.
abbrev pub insert_run :
    (db_now next_run next_step : ℕ)
    → ℕ
    → GovernanceWorkflow
    → StartWorkflowRunRequest
    → GovernanceDb
    → GovernanceDb
insert_run db_now next_run next_step owner w q g = record g {
  workflow_runs = g.workflow_runs ++ run_row db_now next_run owner w q ∷ [];
  step_runs = g.step_runs ++ step_run_rows next_step next_run (ordered_steps g w.id);
}

unfoldable pub start_workflow_run :
    (db_now next_run next_step : ℕ)
    → ℕ
    → ℕ
    → StartWorkflowRunRequest
    → PromotionDb
    → Result GovernanceRunDetail GovernanceError × PromotionDb
start_workflow_run db_now next_run next_step workflow owner q db =
    elim (find (λ w. w.id == workflow) db.governance.workflows) [
      | none ↦ (err not_found, db)
      | some w ↦
          let g = insert_run db_now next_run next_step owner w q db.governance in
          if w.owner_id == owner
          then (fetch_run_detail next_run owner g, set_governance g db)
          else (err forbidden, db)
    ]
