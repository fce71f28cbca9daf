-- ===== src/Examples/Policy.antt =====
-- The theorems on backend/src/policy.rs at concrete data.
use mcp_host.Prelude.{
  ◌≡◌, refl, Bool, true, false, ◌&&◌, none, some, List, [], ◌∷◌, String, Value, show_nat, pos,
  starts_with, to_lowercase,
}
use mcp_host.Chrono.{plain}
use mcp_host.Billing.Models
use mcp_host.Billing.Service.{
  active_subscription, joined, of_organization, plan_by_id, plan_entitlement,
}
use mcp_host.Billing.Usage.{enforce_quota}
use mcp_host.Governance.Ready.{ensure_promotion_ready, ready_row}
use mcp_host.Billing.Models.{BillingDb, BillingPlan, OrganizationSubscription}
use mcp_host.Promotions.Signals.{PromotionDb, active}
use mcp_host.Keys.Models.{state_from_str, add_veto_note}
use mcp_host.Keys.Register.{summarize_for_policy, tier_requirement, list_keys}
use mcp_host.Policy.Certifications
use mcp_host.Keys.Events.{KeyDb}
use mcp_host.Policy.Artifacts.{
  MarketplacePlatform, derive_health, classify_tier, matches_success, matches_healthy, all_healthy,
  reference_health, reference_tier, derive_health-reference,
}
use mcp_host.Policy.Backends.{
  docker, image_build, RuntimeExecutorDescriptor, plan, select_backend, supports, supports_all,
}
use mcp_host.Policy.Certifications.{
  EvaluationCertification, pass, certification_gate, latest_per_requirement,
  list_for_digest_and_tier, certification_finding,
}
use mcp_host.Policy.Checks.{
  IntelligenceScore, healthy, check_score, minimum_threshold, check_health, check_billing,
  key_requirement,
}
use mcp_host.Policy.Decision.{BuildArtifactRun, PolicyDb, latest_artifact, evaluate}
use mcp_host.Policy.Clear.{Clear, decision, selected_for, evaluate-Clear}

abbrev platforms : List MarketplacePlatform
platforms =
    record { platform = "linux/amd64"; credential_health_status = "Healthy" }
    ∷ record { platform = "linux/arm64"; credential_health_status = "expired" }
    ∷ []

derive_health-reference_example :
    ((derive_health "Succeeded" "ok" platforms).overall
      ≡ reference_health "Succeeded" "ok" platforms)
    × (classify_tier "slack" true (derive_health "Succeeded" "ok" platforms)
        ≡ reference_tier "slack" true
            (matches_success "Succeeded" && (matches_healthy "ok" && all_healthy platforms)))
derive_health-reference_example = derive_health-reference "Succeeded" "ok" "slack" true platforms

-- One expired credential puts the artifact on the watchlist.
watchlist_test :
    classify_tier "slack" true (derive_health "Succeeded" "ok" platforms) ≡ "watchlist-multi:slack"
unfolding derive_health classify_tier matches_success to_lowercase matches_healthy starts_with
watchlist_test = refl

abbrev run : BuildArtifactRun
run = record {
  id = 9;
  server_id = 3;
  registry_image = some "registry/slack:1";
  local_image = "slack:1";
  manifest_digest = some "sha256:ab";
  status = "succeeded";
  multi_arch = true;
  credential_health_status = "healthy";
  completed_at = 90;
  platforms = [];
}

abbrev certification : EvaluationCertification
certification = record {
  id = 1;
  manifest_digest = "sha256:ab";
  tier = "gold:slack";
  policy_requirement = "sbom";
  status = pass;
  evidence_source = none;
  valid_from = 50;
  valid_until = none;
  refresh_cadence_seconds = some 600;
  next_refresh_at = some 900;
}

abbrev business : BillingDb
business = record {
  plans =
      record {
        id = 1;
        code = "pro";
        name = "pro";
        description = none;
        billing_period = "monthly";
        currency = "EUR";
        amount_cents = pos 900;
        active = true;
        created_at = 1;
        updated_at = 1;
      }
      ∷ [];
  entitlements = [];
  subscriptions =
      record {
        id = 11;
        organization_id = 4;
        plan_id = 1;
        status = "active";
        trial_ends_at = none;
        current_period_start = 1;
        current_period_end = none;
        canceled_at = none;
        created_at = 1;
        updated_at = 1;
      }
      ∷ [];
  ledger = [];
}

abbrev promotions : PromotionDb
promotions = record {
  trust = record {
    instances = [];
    registry = [];
    history = [];
    attestations = [];
    runs = [];
    artifact_runs = [];
    certifications = [];
  };
  tracks =
      record {
        id = 1;
        owner_id = 5;
        name = "Mainline";
        tier = "gold:slack";
        stages = "gold:slack" ∷ [];
        workflow_id = none;
      }
      ∷ [];
  scores = [];
  promotions =
      record {
        id = 2;
        promotion_track_id = 1;
        manifest_digest = "sha256:ab";
        artifact_run_id = some 9;
        stage = "gold:slack";
        status = active;
        scheduled_by = none;
        approved_by = none;
        workflow_run_id = some 6;
        notes = [];
        posture_verdict = none;
        approved_at = none;
        activated_at = none;
        updated_at = 80;
      }
      ∷ [];
  governance = record {
    workflows = [];
    workflow_steps = [];
    workflow_runs = [];
    step_runs = [];
    audit_logs = [];
  };
}

abbrev keys : KeyDb
keys = record {
  keys =
      record {
        id = 7;
        provider_id = 8;
        alias = none;
        state = "active";
        rotation_due_at = none;
        attestation_digest = some "AA==";
        attestation_signature = some "AA==";
        attestation_verified_at = some 60;
        activated_at = some 60;
        retired_at = none;
        compromised_at = none;
        version = pos 1;
        created_at = 60;
        updated_at = 60;
      }
      ∷ [];
  rotations = [];
  bindings = [];
  events = [];
  tiers = record { tier = "gold:slack"; provider_id = 8; byok_required = true } ∷ [];
  notified = [];
}

abbrev tables : PolicyDb
tables = record {
  artifacts = run ∷ [];
  billing = business;
  certifications = certification ∷ [];
  promotions = promotions;
  keys = keys;
}

abbrev executors : List RuntimeExecutorDescriptor
executors =
    record { backend = docker; display_name = "Docker"; capabilities = image_build ∷ [] } ∷ []

abbrev scores : List (String × IntelligenceScore)
scores = ("runtime", record { score = 9000; status = healthy }) ∷ []

abbrev text : Value → String
text v = ""

abbrev here : PolicyDb → Bool × Bool
here db =
    let d =
      decision plain show_nat show_nat text executors docker true 300 100 1 100 3 (some 4) "slack"
        none false none scores db in
    (d.evaluation_required, d.governance_required)

asks_nothing : (here tables).0 ≡ false
unfolding evaluate plan check_score minimum_threshold check_health latest_artifact starts_with
    derive_health classify_tier matches_success to_lowercase matches_healthy select_backend
    check_billing supports_all supports enforce_quota active_subscription joined of_organization
    plan_by_id Models.is_active plan_entitlement certification_gate ensure_promotion_ready
    latest_per_requirement list_for_digest_and_tier certification_finding Certifications.is_active
    ready_row key_requirement summarize_for_policy tier_requirement list_keys state_from_str
    add_veto_note
asks_nothing = refl

approved_test : (here tables).1 ≡ false
unfolding evaluate plan check_score minimum_threshold check_health latest_artifact starts_with
    derive_health classify_tier matches_success to_lowercase matches_healthy select_backend
    check_billing supports_all supports enforce_quota active_subscription joined of_organization
    plan_by_id Models.is_active plan_entitlement certification_gate ensure_promotion_ready
    latest_per_requirement list_for_digest_and_tier certification_finding Certifications.is_active
    ready_row key_requirement summarize_for_policy tier_requirement list_keys state_from_str
    add_veto_note
approved_test = refl

evaluate-Clear_example :
    (r : BuildArtifactRun) × (latest_artifact 3 tables ≡ some r)
    × Clear plain show_nat show_nat text executors true 100 1 100
        (some 4)
        "slack"
        (plan docker none false)
        none
        (selected_for plain show_nat show_nat text executors docker true 300 100 1 100 none false
          none)
        scores
        tables
        r
evaluate-Clear_example =
    evaluate-Clear plain show_nat show_nat text executors docker true 300 100 1 100 3 (some 4)
      "slack" none false none scores tables asks_nothing approved_test

-- Without the certification an evaluation is required, and nothing else.
uncertified_test :
    here (record {
      artifacts = run ∷ [];
      billing = business;
      certifications = [];
      promotions = promotions;
      keys = keys;
    })
    ≡ (true, false)
unfolding evaluate plan check_score minimum_threshold check_health latest_artifact starts_with
    derive_health classify_tier matches_success to_lowercase matches_healthy select_backend
    check_billing supports_all supports enforce_quota active_subscription joined of_organization
    plan_by_id Models.is_active plan_entitlement certification_gate ensure_promotion_ready
    latest_per_requirement list_for_digest_and_tier certification_finding Certifications.is_active
    ready_row key_requirement summarize_for_policy tier_requirement list_keys state_from_str
    add_veto_note
uncertified_test = refl
