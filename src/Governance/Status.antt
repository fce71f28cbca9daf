-- ===== src/Governance/Status.antt =====
-- backend/src/governance/engine.rs: a run's status, with what follows it in the audit log, the step runs
-- and the promotion. `db_now` is the database's `NOW()`.
use mcp_host.Prelude.{
  ℕ, Bool, Option, none, some, List, [], ◌∷◌, ◌++◌, String, ◌==◌, ◌&&◌, if◌then◌else◌, find,
  update_where, Value, string, object, entry, no_entry, Result, ok, err,
}
use mcp_host.Sql.{SqlError, database}
use mcp_host.Keys.Models.{is_some}
use mcp_host.Governance.Models.{
  GovernanceRunStatus, pending, running, completed, failed, cancelled, GovernanceStepStatus,
  step_completed, step_failed, RunStatusUpdateRequest, WorkflowRun, StepRun, AuditLog, GovernanceDb,
}
use mcp_host.Governance.Runs.{set_governance, own_run}
use mcp_host.Promotions.Signals.{
  PromotionStatus, scheduled, in_progress, approved, active, rolled_back, PromotionDb,
}

abbrev pub status_str : PromotionStatus → String
status_str scheduled = "scheduled"
status_str in_progress = "in_progress"
status_str approved = "approved"
status_str active = "active"
status_str rolled_back = "rolled_back"

-- The serde name of a run's status.
abbrev run_status_str : GovernanceRunStatus → String
run_status_str pending = "pending"
run_status_str running = "in_progress"
run_status_str completed = "completed"
run_status_str failed = "failed"
run_status_str cancelled = "cancelled"

-- The run names a track, a stage and a digest.
abbrev pub names_place : WorkflowRun → Bool
names_place r =
    is_some r.promotion_track_id && is_some r.promotion_stage && is_some r.target_manifest_digest

-- What PostgreSQL answers to the update: it gives the text of the status to the column, whose type is the
-- enum promotion_status (migration 0025), without a cast.
abbrev pub refused : SqlError
refused = database "column \"status\" is of type promotion_status but expression is of type text"

-- UPDATE artifact_promotions SET status = $1 ...: refused whatever rows there are
unfoldable pub sync_promotion_status : ℕ → GovernanceDb → Result (Unit {0}) SqlError
sync_promotion_status run g = elim (find (λ r. r.id == run) g.workflow_runs) [
  | none ↦ ok tt
  | some r ↦ if names_place r then err refused else ok tt
]

abbrev append_note : List String → Option String → List String
append_note notes none = notes
append_note notes (some n) = notes ++ n ∷ []

abbrev pub moved : (db_now : ℕ) → RunStatusUpdateRequest → WorkflowRun → WorkflowRun
moved db_now payload r = record r {
  status = payload.status;
  notes = append_note r.notes payload.note;
  updated_at = db_now;
}

abbrev audit_payload : GovernanceRunStatus → Option String → Value
audit_payload status none = object (entry "status" (string (run_status_str status)) no_entry)
audit_payload status (some n) =
    object (entry "status" (string (run_status_str status)) (entry "note" (string n) no_entry))

abbrev coalesce : Option ℕ → ℕ → Option ℕ
coalesce none t = some t
coalesce (some s) t = some s

-- status <> 'completed'
abbrev pub uncompleted : GovernanceStepStatus → Bool
uncompleted step_completed = Bool.false
uncompleted _ = Bool.true

-- status NOT IN ('failed', 'completed')
abbrev pub unended : GovernanceStepStatus → Bool
unended step_completed = Bool.false
unended step_failed = Bool.false
unended _ = Bool.true

abbrev pub end_step : (db_now : ℕ) → GovernanceStepStatus → StepRun → StepRun
end_step db_now status s = record s {
  status = status;
  completed_at = coalesce s.completed_at db_now;
}

-- The step runs after the run's status.
unfoldable pub end_steps : (db_now : ℕ) → ℕ → GovernanceRunStatus → List StepRun → List StepRun
end_steps db_now run completed steps =
    update_where (λ s. (s.workflow_run_id == run) && uncompleted s.status)
      (end_step db_now step_completed) steps
end_steps db_now run failed steps =
    update_where (λ s. (s.workflow_run_id == run) && unended s.status) (end_step db_now step_failed)
      steps
end_steps db_now run pending steps = steps
end_steps db_now run running steps = steps
end_steps db_now run cancelled steps = steps

pub record RunTransitionOutcome : Type 0 where
  pub run_id : ℕ
  pub workflow_id : ℕ
  pub status : GovernanceRunStatus
  pub policy_decision_id : Option ℕ

abbrev pub log_row : (db_now next_log : ℕ) → ℕ → ℕ → RunStatusUpdateRequest → AuditLog
log_row db_now next_log run owner payload = record {
  id = next_log;
  workflow_run_id = run;
  actor_id = some owner;
  event_type = "status_change";
  details = some (audit_payload payload.status payload.note);
  created_at = db_now;
}

-- The first statements of `update_run_status`: the run with its audit log.
abbrev pub move_run :
    (db_now next_log : ℕ) → ℕ → ℕ → RunStatusUpdateRequest → GovernanceDb → GovernanceDb
move_run db_now next_log run owner payload g = record g {
  workflow_runs = update_where (own_run g owner run) (moved db_now payload) g.workflow_runs;
  audit_logs = g.audit_logs ++ log_row db_now next_log run owner payload ∷ [];
}

abbrev pub end_run_steps : (db_now : ℕ) → ℕ → GovernanceRunStatus → GovernanceDb → GovernanceDb
end_run_steps db_now run status g = record g { step_runs = end_steps db_now run status g.step_runs }

-- Behind the update of the promotion: its error, or the step runs.
abbrev pub after_sync :
    (db_now : ℕ)
    → ℕ
    → GovernanceRunStatus
    → RunTransitionOutcome
    → Result (Unit {0}) SqlError
    → PromotionDb
    → Result (Option RunTransitionOutcome) SqlError × PromotionDb
after_sync db_now run status outcome (err e) db = (err e, db)
after_sync db_now run status outcome (ok u) db =
    (ok (some outcome), set_governance (end_run_steps db_now run status db.governance) db)

abbrev pub outcome_of : RunStatusUpdateRequest → WorkflowRun → RunTransitionOutcome
outcome_of payload r = record {
  run_id = r.id;
  workflow_id = r.workflow_id;
  status = payload.status;
  policy_decision_id = r.policy_decision_id;
}

unfoldable pub update_run_status :
    (db_now next_log : ℕ)
    → ℕ
    → ℕ
    → RunStatusUpdateRequest
    → PromotionDb
    → Result (Option RunTransitionOutcome) SqlError × PromotionDb
update_run_status db_now next_log run owner payload db =
    elim (find (own_run db.governance owner run) db.governance.workflow_runs) [
      | none ↦ (ok none, db)
      | some r ↦
          let g = move_run db_now next_log run owner payload db.governance in
          after_sync db_now run payload.status (outcome_of payload r) (sync_promotion_status r.id g)
            (set_governance g db)
    ]

unfoldable pub attach_policy_decision : (db_now : ℕ) → ℕ → ℕ → GovernanceDb → GovernanceDb
attach_policy_decision db_now run decision g = record g {
  workflow_runs =
      update_where (λ r. r.id == run)
        (λ r. record r { policy_decision_id = some decision; updated_at = db_now }) g.workflow_runs;
}
