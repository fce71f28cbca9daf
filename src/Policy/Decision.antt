-- ===== src/Policy/Decision.antt =====
-- `evaluate` of backend/src/policy.rs. Not modelled: the query of the newest VM and of its trust event, and
-- backend/src/intelligence.rs; `vm_record` and `scores` are what they answer.
use mcp_host.Prelude.{
  ℕ, Bool, false, not, Option, none, some, List, [], ◌∷◌, ◌++◌, String, Value, ◌==◌, format,
  show_nat, ◌||◌, if◌then◌else◌, select, latest,
}
use mcp_host.Chrono.{Calendar}
use mcp_host.Trust.Outcome.{and_then, option_map}
use mcp_host.Billing.Models.{BillingDb}
use mcp_host.Promotions.Signals.{PromotionDb}
use mcp_host.Governance.Ready.{GovernanceGateEvaluation}
use mcp_host.Keys.Events.{KeyDb}
use mcp_host.Policy.Artifacts.{MarketplacePlatform, ArtifactHealth, derive_health, classify_tier}
use mcp_host.Policy.Backends.{
  RuntimeBackend, docker, kubernetes, virtual_machine, RuntimeCapability, keys_of,
  RuntimeExecutorDescriptor, Selection, select_backend, default_image_for, Plan, plan,
}
use mcp_host.Policy.Posture.{
  VmAttestationRecord, VmAttestationPolicyOutcome, evaluate_vm_attestation_posture,
}
use mcp_host.Policy.Certifications.{EvaluationCertification}
use mcp_host.Policy.Checks.{
  Check, raised, IntelligenceScore, check_scores, check_health, check_if, check_billing,
  check_certifications, gate_of, check_gate, ProviderKeyDecisionPosture, posture_of,
  key_requirement, check_keys,
}

-- A row of build_artifact_runs with its platforms, in the order of their names.
pub record BuildArtifactRun : Type 0 where
  pub id : ℕ
  pub server_id : ℕ
  pub registry_image : Option String
  pub local_image : String
  pub manifest_digest : Option String
  pub status : String
  pub multi_arch : Bool
  pub credential_health_status : String
  pub completed_at : ℕ
  pub platforms : List MarketplacePlatform

pub record PolicyDb : Type 0 where
  pub artifacts : List BuildArtifactRun
  pub billing : BillingDb
  pub certifications : List EvaluationCertification
  pub promotions : PromotionDb
  pub keys : KeyDb

pub record PolicyDecision : Type 0 where
  pub backend : RuntimeBackend
  pub candidate_backend : RuntimeBackend
  pub image : String
  pub requires_build : Bool
  pub artifact_run_id : Option ℕ
  pub manifest_digest : Option String
  pub policy_version : String
  pub evaluation_required : Bool
  pub governance_required : Bool
  pub governance_run_id : Option ℕ
  pub tier : Option String
  pub health_overall : Option String
  pub capability_requirements : List RuntimeCapability
  pub capabilities_satisfied : Bool
  pub executor_name : Option String
  pub notes : List String
  pub promotion_track_id : Option ℕ
  pub promotion_track_name : Option String
  pub promotion_stage : Option String
  pub promotion_status : Option String
  pub promotion_notes : List String
  pub provider_key_posture : Option ProviderKeyDecisionPosture

unfoldable pub latest_artifact : ℕ → PolicyDb → Option BuildArtifactRun
latest_artifact server db =
    latest (λ r. r.completed_at) (select (λ r. r.server_id == server) db.artifacts)

abbrev pub health_of : BuildArtifactRun → ArtifactHealth
health_of r = derive_health r.status r.credential_health_status r.platforms

abbrev image_of : String → Option String → Option BuildArtifactRun → String × List String
image_of server_type (some image) row = (image, [])
image_of server_type none none = (default_image_for server_type, [])
image_of server_type none (some r) = from_run r.registry_image
  where
    from_run : Option String → String × List String
    from_run (some image) = (image, "image:registry-promoted" ∷ [])
    from_run none = (r.local_image, "image:local-build" ∷ [])

abbrev artifact_notes : Option BuildArtifactRun → List String
artifact_notes none = "artifact:none" ∷ []
artifact_notes (some r) =
    format (
      "artifact:" ∷ show_nat r.id ∷ ":status:" ∷ r.status ∷ ":health:" ∷ (health_of r).overall ∷ [])
    ∷ []

-- The posture of the VM, where the server is to run in one.
abbrev pub vm_posture :
    (to_rfc3339 : ℕ → String) (now stale_limit : ℕ)
    → Bool
    → RuntimeBackend
    → Option VmAttestationRecord
    → Option VmAttestationPolicyOutcome
vm_posture to_rfc3339 now stale_limit use_gpu virtual_machine vm_record = some (
    evaluate_vm_attestation_posture to_rfc3339 vm_record now stale_limit
      (if use_gpu then kubernetes else docker))
vm_posture to_rfc3339 now stale_limit use_gpu _ vm_record = none

abbrev pub vm_check : Option VmAttestationPolicyOutcome → Check
vm_check none = raised false []
vm_check (some o) = record {
  evaluation = o.evaluation_required;
  governance = false;
  notes = o.notes;
}

abbrev pub moved_backend : RuntimeBackend → Option VmAttestationPolicyOutcome → RuntimeBackend
moved_backend b none = b
moved_backend b (some o) = or_backend o.backend_override
  where
    or_backend : Option RuntimeBackend → RuntimeBackend
    or_backend none = b
    or_backend (some new) = new

abbrev requested_note : List RuntimeCapability → List String
requested_note [] = []
requested_note (r ∷ rs) = format ("capabilities:requested:" ∷ keys_of (r ∷ rs) ∷ []) ∷ []

abbrev pub flags_or : (Check → Bool) → List Check → Bool
flags_or flag [] = false
flags_or flag (c ∷ cs) = flag c || flags_or flag cs

abbrev notes_of : List Check → List String
notes_of [] = []
notes_of (c ∷ cs) = c.notes ++ notes_of cs

abbrev gate_notes : Option GovernanceGateEvaluation → List String
gate_notes none = []
gate_notes (some g) = g.notes

abbrev gate_run : Option GovernanceGateEvaluation → Option ℕ
gate_run none = none
gate_run (some g) = if g.satisfied then g.run_id else none

abbrev pub tier_of : String → Option BuildArtifactRun → Option String
tier_of server_type row = option_map (λ r. classify_tier server_type r.multi_arch (health_of r)) row

abbrev pub digest_of : Option BuildArtifactRun → Option String
digest_of row = and_then row (λ r. r.manifest_digest)

abbrev pub overall_of : Option BuildArtifactRun → Option String
overall_of row = option_map (λ r. (health_of r).overall) row

abbrev gate_field {ℓ} :
    {A : Type ℓ}
    → (GovernanceGateEvaluation → Option A)
    → Option GovernanceGateEvaluation
    → Option A
gate_field f g = and_then g f

module _ (c : Calendar) (tenths to_rfc3339 : ℕ → String) (json_text : Value → String)
    (executors : List RuntimeExecutorDescriptor) (default_backend : RuntimeBackend)
    (attached : Bool) (stale_limit now fresh db_now : ℕ) where
  -- The checks in their order, behind the plan, the artifact, the VM and the selection.
  abbrev pub checks :
      Option ℕ
      → (digest tier health : Option String) → Plan
      → Selection
      → List (String × IntelligenceScore)
      → PolicyDb
      → List Check
  checks organization digest tier health p selection scores db =
      check_scores tenths tier scores
      ∷ check_if p.requires_build "evaluation:reason:requires-build"
      ∷ check_health health
      ∷ check_if (not selection.capabilities_satisfied) "evaluation:reason:capabilities"
      ∷ check_billing c now fresh db_now organization db.billing
      ∷ check_certifications to_rfc3339 json_text now digest tier db.certifications
      ∷ check_gate (gate_of attached digest tier db.promotions)
      ∷ check_keys (key_requirement now tier db.keys)
      ∷ []

  -- The decision from the plan, the artifact, the VM's posture, the selection and the checks.
  abbrev pub decided :
      String
      → Plan
      → Option BuildArtifactRun
      → Option VmAttestationPolicyOutcome
      → RuntimeBackend
      → Selection
      → List Check
      → Option GovernanceGateEvaluation
      → Option ProviderKeyDecisionPosture
      → PolicyDecision
  decided server_type p row posture candidate selection cs gate key =
      let image = image_of server_type p.requested_image row in
      record {
        backend = selection.backend;
        candidate_backend = candidate;
        image = image.0;
        requires_build = p.requires_build;
        artifact_run_id = option_map (λ r. r.id) row;
        manifest_digest = digest_of row;
        policy_version = "runtime-policy-v0.1";
        evaluation_required = flags_or (λ k. k.evaluation) (vm_check posture ∷ cs);
        governance_required = flags_or (λ k. k.governance) (vm_check posture ∷ cs);
        governance_run_id = gate_run gate;
        tier = tier_of server_type row;
        health_overall = overall_of row;
        capability_requirements = p.capability_requirements;
        capabilities_satisfied = selection.capabilities_satisfied;
        executor_name = selection.executor_name;
        notes =
            p.notes
            ++ artifact_notes row
            ++ image.1
            ++ (vm_check posture).notes
            ++ requested_note p.capability_requirements
            ++ selection.notes
            ++ notes_of cs;
        promotion_track_id = gate_field (λ g. g.promotion_track_id) gate;
        promotion_track_name = gate_field (λ g. g.promotion_track_name) gate;
        promotion_stage = gate_field (λ g. g.promotion_stage) gate;
        promotion_status = gate_field (λ g. g.promotion_status) gate;
        promotion_notes = gate_notes gate;
        provider_key_posture = key;
      }

  -- With the VM's record and the scores that the database answers.
  unfoldable pub evaluate :
      (server : ℕ)
      → Option ℕ
      → String
      → Option Value
      → Bool
      → Option VmAttestationRecord
      → List (String × IntelligenceScore)
      → PolicyDb
      → PolicyDecision × Option VmAttestationPolicyOutcome
  evaluate server organization server_type config use_gpu vm_record scores db =
      let p = plan default_backend config use_gpu in
      let row = latest_artifact server db in
      let posture = vm_posture to_rfc3339 now stale_limit use_gpu p.backend vm_record in
      let candidate = moved_backend p.backend posture in
      let selection = select_backend executors candidate p.capability_requirements in
      let digest = digest_of row in
      let tier = tier_of server_type row in
      (
        decided server_type p row posture candidate selection
            (checks organization digest tier (overall_of row) p selection scores db)
            (gate_of attached digest tier db.promotions)
            (option_map (λ x. posture_of x.0 x.1) (key_requirement now tier db.keys)),
        posture,
      )
