-- ===== src/Promotions/Signals.antt =====
-- `collect_promotion_signals` of backend/src/promotions.rs, and the tables that it reads.
use mcp_host.Prelude.{
  ℕ, zero, suc, Bool, Option, none, some, List, [], ◌∷◌, map, String, Value, ◌==◌, str_eq, ltb,
  ◌&&◌, if◌then◌else◌, find, select, any, latest,
}
use mcp_host.Governance.Models.{GovernanceDb}
use mcp_host.Remediation.Runs.{RuntimeVmRemediationRun}
use mcp_host.Trust.Tables.{RuntimeVmTrustRegistryState, ArtifactRun, TrustDb}
use mcp_host.Trust.Outcome.{and_then, option_map}
use mcp_host.Promotions.Posture.{PromotionTrack, IntelligenceSignal, PromotionPostureSignals}

pub data PromotionStatus : Type 0 where
  scheduled in_progress approved active rolled_back : PromotionStatus

pub record ArtifactPromotion : Type 0 where
  pub id : ℕ
  pub promotion_track_id : ℕ
  pub manifest_digest : String
  pub artifact_run_id : Option ℕ
  pub stage : String
  pub status : PromotionStatus
  pub scheduled_by : Option ℕ
  pub approved_by : Option ℕ
  pub workflow_run_id : Option ℕ
  pub notes : List String
  pub posture_verdict : Option Value
  pub approved_at : Option ℕ
  pub activated_at : Option ℕ
  pub updated_at : ℕ

pub record IntelligenceRow : Type 0 where
  pub server_id : ℕ
  pub capability : String
  pub status : String
  pub score : ℕ
  pub confidence : ℕ
  pub last_observed_at : ℕ

pub record PromotionDb : Type 0 where
  pub trust : TrustDb
  pub tracks : List PromotionTrack
  pub scores : List IntelligenceRow
  pub promotions : List ArtifactPromotion
  pub governance : GovernanceDb

-- DESC NULLS LAST
abbrev nulls_last : Option ℕ → ℕ
nulls_last none = 0
nulls_last (some t) = suc t

abbrev is_digest : String → Option String → Bool
is_digest digest none = Bool.false
is_digest digest (some d) = str_eq d digest

unfoldable pub artifact_row : TrustDb → Option ℕ → String → Option ArtifactRun
artifact_row db (some id) digest = find (λ r. r.id == id) db.artifact_runs
artifact_row db none digest =
    latest (λ r. nulls_last r.completed_at)
      (select (λ r. is_digest digest r.manifest_digest) db.artifact_runs)

-- JOIN runtime_vm_instances ON id = runtime_vm_instance_id WHERE server_id = $1
abbrev pub of_server : TrustDb → ℕ → ℕ → Bool
of_server db server instance = any (λ r. (r.id == instance) && (r.server_id == server)) db.instances

unfoldable pub trust_row : TrustDb → ℕ → Option RuntimeVmTrustRegistryState
trust_row db server =
    latest (λ r. r.updated_at)
      (select (λ r. of_server db server r.runtime_vm_instance_id) db.registry)

unfoldable pub remediation_row : TrustDb → ℕ → Option RuntimeVmRemediationRun
remediation_row db server =
    latest (λ r. r.updated_at) (select (λ r. of_server db server r.runtime_vm_instance_id) db.runs)

-- ORDER BY last_observed_at DESC
abbrev insert_row : IntelligenceRow → List IntelligenceRow → List IntelligenceRow
insert_row x [] = x ∷ []
insert_row x (y ∷ ys) =
    let rest = insert_row x ys in
    if ltb x.last_observed_at y.last_observed_at then y ∷ rest else x ∷ y ∷ ys

abbrev sort_rows : List IntelligenceRow → List IntelligenceRow
sort_rows [] = []
sort_rows (x ∷ xs) = insert_row x (sort_rows xs)

-- LIMIT
abbrev take {ℓ} : {A : Type ℓ} → ℕ → List A → List A
take zero xs = []
take (suc n) [] = []
take (suc n) (x ∷ xs) = x ∷ take n xs

unfoldable pub intelligence_rows : List IntelligenceRow → ℕ → List IntelligenceSignal
intelligence_rows scores server =
    map
      (λ r. record {
        capability = r.capability;
        status = r.status;
        score = r.score;
        confidence = r.confidence;
      })
      (take 10 (sort_rows (select (λ r. r.server_id == server) scores)))

abbrev pub no_signals : PromotionPostureSignals
no_signals = record {
  artifact_status = none;
  credential_health_status = none;
  trust_lifecycle_state = none;
  trust_attestation_status = none;
  trust_remediation_state = none;
  trust_remediation_attempts = none;
  remediation_status = none;
  remediation_failure_reason = none;
  intelligence = [];
}

abbrev pub signals_of : PromotionDb → ArtifactRun → PromotionPostureSignals
signals_of db row =
    let trust = trust_row db.trust row.server_id in
    let run = remediation_row db.trust row.server_id in
    record {
      artifact_status = some row.status;
      credential_health_status = some row.credential_health_status;
      trust_lifecycle_state = option_map (λ r. r.lifecycle_state) trust;
      trust_attestation_status = option_map (λ r. r.attestation_status) trust;
      trust_remediation_state = and_then trust (λ r. r.remediation_state);
      trust_remediation_attempts = option_map (λ r. r.remediation_attempts) trust;
      remediation_status = option_map (λ r. r.status) run;
      remediation_failure_reason = and_then run (λ r. r.failure_reason);
      intelligence = intelligence_rows db.scores row.server_id;
    }

unfoldable pub collect_promotion_signals : PromotionDb → Option ℕ → String → PromotionPostureSignals
collect_promotion_signals db artifact_run_id digest =
    elim (artifact_row db.trust artifact_run_id digest) [
      | none ↦ no_signals
      | some row ↦ signals_of db row
    ]
