-- ===== src/Examples/Promotions.antt =====
-- The theorems on backend/src/promotions.rs, and the round trips of stored texts, at concrete data.
use mcp_host.Prelude.{
  ℕ, ◌+◌, ◌≡◌, ◌↔◌, refl, true, none, some, List, [], ◌∷◌, String, show_nat, to_lowercase, ◌⊎◌, err,
  pos,
}
use mcp_host.Trust.Lifecycle.{restored, lifecycle_str}
use mcp_host.Remediation.Failures.{timeout, reason_str, parse, parse-reason_str}
use mcp_host.Trust.Tables.{column_decode, RuntimeVmTrustRegistryState, ArtifactRun, TrustDb}
use mcp_host.Promotions.Train.{ReleaseTrain, new, contains, previous_stage}
use mcp_host.Promotions.Posture.{
  PromotionTrack, PromotionPostureSignals, evaluate_promotion_posture, bad_credential,
}
use mcp_host.Promotions.Verdicts.{acceptable, evaluate_promotion_posture-allowed}
use mcp_host.Promotions.Signals.{
  ArtifactPromotion, PromotionDb, artifact_row, trust_row, no_signals, remediation_row,
  intelligence_rows, collect_promotion_signals,
}
use mcp_host.Error.{AppError}
use mcp_host.Governance.Models.{GovernanceDb}
use mcp_host.Governance.Runs.{set_promotions}
use mcp_host.Promotions.Schedule.{
  SchedulePromotionRequest, exists_at, admit, promotion_row, schedule_promotion, approve_promotion,
  load_promotion,
}
use mcp_host.Promotions.Admission.{
  Admitted, schedule_promotion-Admitted, schedule_promotion-registry_veto,
}
use mcp_host.Promotions.Places.{OnePerPlace, schedule, approve, unmoved, more, Steps-OnePerPlace}

parse-reason_str_example : parse (reason_str timeout) ≡ some timeout
parse-reason_str_example = parse-reason_str timeout

abbrev train : ReleaseTrain
train = new []

abbrev track : PromotionTrack
track = record {
  id = 1;
  owner_id = 5;
  name = "Mainline";
  tier = "stable";
  stages = "candidate" ∷ "production" ∷ [];
  workflow_id = none;
}

abbrev signals : PromotionPostureSignals
signals = record no_signals {
  credential_health_status = some "healthy";
  trust_lifecycle_state = some "restored";
  trust_attestation_status = some "trusted";
}

evaluate_promotion_posture-allowed_example :
    ((evaluate_promotion_posture show_nat track signals).allowed ≡ acceptable signals)
    × (((evaluate_promotion_posture show_nat track signals).allowed ≡ true)
        ↔ ((evaluate_promotion_posture show_nat track signals).veto_reasons ≡ []))
evaluate_promotion_posture-allowed_example =
    evaluate_promotion_posture-allowed show_nat track signals

abbrev registered : RuntimeVmTrustRegistryState
registered = record {
  runtime_vm_instance_id = 3;
  attestation_status = "trusted";
  lifecycle_state = "restored";
  remediation_state = none;
  remediation_attempts = pos 0;
  freshness_deadline = none;
  provenance_ref = none;
  provenance = none;
  version = pos 0;
  updated_at = 200;
}

abbrev build : ArtifactRun
build = record {
  id = 9;
  server_id = 7;
  manifest_digest = some "sha256:ab";
  status = "succeeded";
  credential_health_status = "healthy";
  completed_at = some 90;
}

abbrev trust_tables : TrustDb
trust_tables = record {
  instances =
      record {
        id = 3;
        server_id = 7;
        attestation_status = "trusted";
        attestation_evidence = none;
        created_at = 100;
        terminated_at = none;
      }
      ∷ [];
  registry = registered ∷ [];
  history = [];
  attestations = [];
  runs = [];
  artifact_runs = build ∷ [];
  certifications = [];
}

abbrev no_workflows : GovernanceDb
no_workflows = record {
  workflows = [];
  workflow_steps = [];
  workflow_runs = [];
  step_runs = [];
  audit_logs = [];
}

abbrev tables : TrustDb → PromotionDb
tables trust = record {
  trust = trust;
  tracks = track ∷ [];
  scores = [];
  promotions = [];
  governance = no_workflows;
}

abbrev request : String → SchedulePromotionRequest
request stage = record {
  track_id = 1;
  manifest_digest = "sha256:ab";
  artifact_run_id = some 9;
  stage = stage;
  notes = [];
}

schedule_promotion-Admitted_example :
    ((e : AppError) × (schedule_promotion show_nat 4 6 50 1 5
          (request "candidate")
          (tables trust_tables)
        ≡ (err e, tables trust_tables)))
    ⊎ ((t : PromotionTrack) × Admitted show_nat 5 (request "candidate") (tables trust_tables) t
        × (schedule_promotion show_nat 4 6 50 1 5 (request "candidate") (tables trust_tables) ≡ (
          err (AppError.db (column_decode "status")),
          set_promotions
              (promotion_row show_nat 50 1 5 (request "candidate") (tables trust_tables) t ∷ [])
              (tables trust_tables),
        )))
schedule_promotion-Admitted_example =
    schedule_promotion-Admitted show_nat 5 (request "candidate") (tables trust_tables) 4 6 50 1

schedule_promotion-registry_veto_example :
    (e : AppError) × (schedule_promotion show_nat 4 6 50 1 5
        (request "candidate")
        (tables trust_tables)
      ≡ (err e, tables trust_tables))
unfolding artifact_row trust_row lifecycle_str
schedule_promotion-registry_veto_example =
    schedule_promotion-registry_veto show_nat 5 (request "candidate") (tables trust_tables) 4 6 50 1
      build registered restored refl refl refl

abbrev bare : TrustDb
bare = record trust_tables { instances = []; registry = [] }

abbrev length_of : List ArtifactPromotion → ℕ
length_of [] = 0
length_of (p ∷ ps) = 1 + length_of ps

-- A server without a VM: the same request is taken.
abbrev taken : PromotionDb
taken = (schedule_promotion show_nat 4 6 50 1 5 (request "Candidate") (tables bare)).1

taken_test : length_of taken.promotions ≡ 1
unfolding schedule_promotion admit artifact_row trust_row remediation_row intelligence_rows
    collect_promotion_signals evaluate_promotion_posture contains new previous_stage to_lowercase
    exists_at bad_credential load_promotion
taken_test = refl

Steps-OnePerPlace_example :
    OnePerPlace
      (approve_promotion 60 5 1 none
        (schedule_promotion show_nat 4 6 55 2 5 (request "production") taken).1).1.promotions
unfolding OnePerPlace
Steps-OnePerPlace_example =
    Steps-OnePerPlace show_nat
      (more
        (more (more unmoved (schedule 4 6 50 1 5 (request "Candidate")))
          (schedule 4 6 55 2 5 (request "production")))
        (approve 60 5 1 none))
      tt
