-- ===== src/Examples/Governance.antt =====
-- The theorems on backend/src/governance/engine.rs at concrete data.
use mcp_host.Prelude.{
  ◌≤◌, ◌≡◌, ◌≢◌, refl, true, none, some, [], ◌∷◌, null, to_lowercase, In, ◌⊎◌, inl, inr, ok, err,
  ◌==◌, find,
}
use mcp_host.Governance.Models.{
  GovernanceWorkflow, StartWorkflowRunRequest, RunStatusUpdateRequest, WorkflowRun,
  GovernanceRunDetail, GovernanceDb, CreateGovernanceWorkflow, promotion, completed, pending,
}
use mcp_host.Governance.Runs.{
  not_found, forbidden, set_governance, insert_run, create_workflow, start_workflow_run,
}
use mcp_host.Governance.Status.{refused, sync_promotion_status, update_run_status}
use mcp_host.Governance.Ready.{ensure_promotion_ready, ready_row, eq_ignore_ascii_case}
use mcp_host.Governance.Started.{Started, start_workflow_run-Started}
use mcp_host.Governance.Settled.{own, Settled, update_run_status-Settled}
use mcp_host.Governance.Gate.{Live, ensure_promotion_ready-Live}
use mcp_host.Trust.Tables.{TrustDb, ArtifactRun}
use mcp_host.Promotions.Posture.{PromotionTrack}
use mcp_host.Promotions.Signals.{active, in_progress, ArtifactPromotion, PromotionDb}
use mcp_host.Promotions.Schedule.{SchedulePromotionRequest}

abbrev payload : CreateGovernanceWorkflow
payload = record {
  name = "Ship";
  workflow_type = promotion;
  tier = "candidate";
  steps =
      record { action = "review"; config = null } ∷ record { action = "sign"; config = null } ∷ [];
}

abbrev created : GovernanceDb
created =
    (create_workflow 10 2 30 5 payload (record {
      workflows = [];
      workflow_steps = [];
      workflow_runs = [];
      step_runs = [];
      audit_logs = [];
    })).1

abbrev track : PromotionTrack
track = record {
  id = 1;
  owner_id = 5;
  name = "Mainline";
  tier = "candidate";
  stages = "candidate" ∷ "production" ∷ [];
  workflow_id = some 2;
}

abbrev build : ArtifactRun
build = record {
  id = 9;
  server_id = 7;
  manifest_digest = some "sha256:ab";
  status = "succeeded";
  credential_health_status = "healthy";
  completed_at = some 90;
}

abbrev trust : TrustDb
trust = record {
  instances = [];
  registry = [];
  history = [];
  attestations = [];
  runs = [];
  artifact_runs = build ∷ [];
  certifications = [];
}

abbrev tables : PromotionDb
tables = record {
  trust = trust;
  tracks = track ∷ [];
  scores = [];
  promotions = [];
  governance = created;
}

abbrev request : SchedulePromotionRequest
request = record {
  track_id = 1;
  manifest_digest = "sha256:ab";
  artifact_run_id = some 9;
  stage = "Candidate";
  notes = [];
}

abbrev start : StartWorkflowRunRequest
start = record {
  target_manifest_digest = some "sha256:ab";
  target_artifact_run_id = some 9;
  notes = none;
  promotion_track_id = some 1;
  promotion_stage = some "Candidate";
}

abbrev workflow : GovernanceWorkflow
workflow = record {
  id = 2;
  owner_id = 5;
  name = "Ship";
  workflow_type = promotion;
  tier = "candidate";
  created_at = 10;
  updated_at = 10;
}

start_workflow_run-Started_example :
    ((find (λ w. w.id == 2) created.workflows ≡ none)
      × (start_workflow_run 20 4 6 2 5 start tables ≡ (err not_found, tables)))
    ⊎ ((w : GovernanceWorkflow) × (find (λ w. w.id == 2) created.workflows ≡ some w)
        × (w.owner_id ≢ 5)
        × (start_workflow_run 20 4 6 2 5 start tables ≡ (err forbidden, tables)))
    ⊎ ((w : GovernanceWorkflow) × (d : GovernanceRunDetail) × (find
            (λ w. w.id == 2)
            created.workflows
          ≡ some w)
        × (w.owner_id ≡ 5)
        × (start_workflow_run 20 4 6 2 5 start tables
            ≡ (ok d, set_governance (insert_run 20 4 6 5 w start created) tables))
        × Started 20 4 6 2 5 start tables w d)
unfolding create_workflow
start_workflow_run-Started_example =
    start_workflow_run-Started 20 4 6 2 5 start tables (record { no_run = refl; no_step = refl })

-- A run of the stage `candidate`, and its promotion.
abbrev run : WorkflowRun
run = record {
  id = 4;
  workflow_id = 2;
  initiated_by = some 5;
  target_artifact_run_id = some 9;
  target_manifest_digest = some "sha256:ab";
  target_tier = "candidate";
  status = pending;
  notes = [];
  policy_decision_id = none;
  promotion_track_id = some 1;
  promotion_stage = some "candidate";
  created_at = 20;
  updated_at = 20;
}

abbrev promoted : ArtifactPromotion
promoted = record {
  id = 1;
  promotion_track_id = 1;
  manifest_digest = "sha256:ab";
  artifact_run_id = some 9;
  stage = "candidate";
  status = in_progress;
  scheduled_by = some 5;
  approved_by = none;
  workflow_run_id = some 4;
  notes = [];
  posture_verdict = none;
  approved_at = none;
  activated_at = none;
  updated_at = 20;
}

abbrev stage_db : ArtifactPromotion → PromotionDb
stage_db p = record tables {
  promotions = p ∷ [];
  governance = record {
    workflows = workflow ∷ [];
    workflow_steps = [];
    workflow_runs = run ∷ [];
    step_runs = [];
    audit_logs = [];
  };
}

abbrev finish : RunStatusUpdateRequest
finish = record { status = completed; note = some "done" }

only_run :
    (x : WorkflowRun) → In x (run ∷ []) → x.id ≡ 4 → find (λ r. r.id == 4) (run ∷ []) ≡ some x
only_run x (inl e) h = rw e refl
only_run x (inr i) h = absurd i.1

update_run_status-Settled_example :
    ((own 40 8 4 5 finish (stage_db promoted) ≡ none)
      × (update_run_status 40 8 4 5 finish (stage_db promoted) ≡ (ok none, stage_db promoted)))
    ⊎ ((r : WorkflowRun) × (own 40 8 4 5 finish (stage_db promoted) ≡ some r)
        × Settled 40 8 4 5 finish (stage_db promoted) r)
update_run_status-Settled_example =
    update_run_status-Settled 40 8 4 5 finish (stage_db promoted) only_run

-- The status is written, and the promotion's update refused.
settled_test : (update_run_status 40 8 4 5 finish (stage_db promoted)).0 ≡ err refused
unfolding update_run_status sync_promotion_status
settled_test = refl

ensure_promotion_ready-Live_example :
    (p : ArtifactPromotion) × Live
      (stage_db (record promoted { status = active }))
      "sha256:ab"
      "candidate"
      p
    × (eq_ignore_ascii_case p.stage "candidate" ≡ true)
    × ((q : ArtifactPromotion)
        → Live (stage_db (record promoted { status = active })) "sha256:ab" "candidate" q
        → q.updated_at ≤ p.updated_at)
unfolding ensure_promotion_ready ready_row to_lowercase
ensure_promotion_ready-Live_example =
    ensure_promotion_ready-Live (stage_db (record promoted { status = active })) "sha256:ab"
      "candidate" refl
