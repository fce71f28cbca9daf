-- ===== src/Policy/Clear.antt =====
-- What stands behind a decision of backend/src/policy.rs that asks for nothing more.
use mcp_host.Prelude.{
  ℕ, ◌≡◌, refl, Bool, true, false, not, Option, none, some, List, [], ◌∷◌, String, Value, All,
}
use mcp_host.Chrono.{Calendar}
use mcp_host.Governance.Ready.{ensure_promotion_ready}
use mcp_host.Keys.Models.{ProviderTierRequirement}
use mcp_host.Keys.Register.{summarize_for_policy, tier_requirement}
use mcp_host.Policy.Artifacts.{
  matches_success, matches_healthy, all_healthy, classify_tier, derive_health-healthy,
}
use mcp_host.Policy.Backends.{
  RuntimeBackend, docker, kubernetes, virtual_machine, same_backend, RuntimeExecutorDescriptor,
  Selection, select_backend, Plan, plan,
}
use mcp_host.Policy.Posture.{VmAttestationRecord}
use mcp_host.Policy.Checks.{Check, IntelligenceScore, degraded}
use mcp_host.Policy.Decision.{
  BuildArtifactRun, PolicyDb, latest_artifact, health_of, overall_of, digest_of, vm_posture,
  vm_check, PolicyDecision, tier_of, moved_backend, flags_or, checks, evaluate,
}
use mcp_host.Policy.Selected.{Runs, select_backend-Runs}
use mcp_host.Policy.Reasons.{
  or_false, scores_clear, health_clear, unknown, billing_clear, certified, gate_clear, keys_clear,
  vm_clear, nonempty, Quota, Certified, Acceptable,
}

-- What stands behind a decision that asks for no evaluation and no approval.
pub record Clear (c : Calendar) (tenths to_rfc3339 : ℕ → String) (json_text : Value → String)
    (executors : List RuntimeExecutorDescriptor) (attached : Bool) (now fresh db_now : ℕ)
    (organization : Option ℕ) (server_type : String) (p : Plan)
    (vm_record : Option VmAttestationRecord) (selection : Selection)
    (scores : List (String × IntelligenceScore)) (db : PolicyDb) (r : BuildArtifactRun)
    : Type 0 where
  pub built : matches_success r.status ≡ true
  pub credential : matches_healthy r.credential_health_status ≡ true
  pub platforms : all_healthy r.platforms ≡ true
  pub no_build : p.requires_build ≡ false
  pub vm : same_backend p.backend virtual_machine ≡ true → Acceptable vm_record
  pub capable : selection.capabilities_satisfied ≡ true
  pub executor : Runs executors selection p.capability_requirements
  pub scored : nonempty scores ≡ true
  pub steady : All (λ x. degraded tenths (tier_of server_type (some r)) x.0 x.1 ≡ false) scores
  pub quota : Quota c now fresh db_now organization db
  pub certification :
      Certified to_rfc3339 json_text now r.manifest_digest
        (classify_tier server_type r.multi_arch (health_of r))
        db.certifications
  pub promoted :
      attached ≡ true
      → (ensure_promotion_ready r.manifest_digest
          (tier_of server_type (some r))
          db.promotions).satisfied
        ≡ true
  pub keys :
      (q : ProviderTierRequirement)
      → tier_requirement (classify_tier server_type r.multi_arch (health_of r)) db.keys ≡ some q
      → q.byok_required ≡ true
      → (summarize_for_policy now q.provider_id db.keys).vetoed ≡ false

flags_clear :
    (flag : Check → Bool) (l : List Check) → flags_or flag l ≡ false → All (λ k. flag k ≡ false) l
flags_clear flag [] e = tt
flags_clear flag (k ∷ ks) e = let (a, b) = or_false _ _ e in (a, flags_clear flag ks b)

selected : (b : Bool) → not b ≡ false → b ≡ true
selected true e = refl
selected false e = cc

posture_clear :
    (to_rfc3339 : ℕ → String) (now stale_limit : ℕ) (use_gpu : Bool) (b : RuntimeBackend)
    (vm_record : Option VmAttestationRecord)
    → (vm_check (vm_posture to_rfc3339 now stale_limit use_gpu b vm_record)).evaluation ≡ false
    → same_backend b virtual_machine ≡ true
    → Acceptable vm_record
posture_clear to_rfc3339 now stale_limit use_gpu docker vm_record e h = cc
posture_clear to_rfc3339 now stale_limit use_gpu kubernetes vm_record e h = cc
posture_clear to_rfc3339 now stale_limit use_gpu virtual_machine vm_record e h =
    vm_clear to_rfc3339 vm_record now stale_limit _ e

module _ (c : Calendar) (tenths to_rfc3339 : ℕ → String) (json_text : Value → String)
    (executors : List RuntimeExecutorDescriptor) (default_backend : RuntimeBackend)
    (attached : Bool) (stale_limit now fresh db_now : ℕ) where
  abbrev checks_of :
      Option ℕ
      → String
      → Plan
      → Selection
      → List (String × IntelligenceScore)
      → PolicyDb
      → Option BuildArtifactRun
      → List Check
  checks_of organization server_type p selection scores db row =
      checks c tenths to_rfc3339 json_text executors default_backend attached stale_limit now fresh
        db_now organization (digest_of row) (tier_of server_type row) (overall_of row) p selection
        scores db

  stands_on_row :
      (organization : Option ℕ) (server_type : String) (p : Plan) (use_gpu : Bool)
      (vm_record : Option VmAttestationRecord) (selection : Selection)
      (scores : List (String × IntelligenceScore)) (db : PolicyDb) (row : Option BuildArtifactRun)
      → flags_or
          (λ k. k.evaluation)
          (vm_check (vm_posture to_rfc3339 now stale_limit use_gpu p.backend vm_record)
            ∷ checks_of organization server_type p selection scores db row)
        ≡ false
      → flags_or (λ k. k.governance) (checks_of organization server_type p selection scores db row)
        ≡ false
      → (selection.capabilities_satisfied ≡ true
          → Runs executors selection p.capability_requirements)
      → (r : BuildArtifactRun) × (row ≡ some r)
        × Clear c tenths to_rfc3339 json_text executors attached now fresh db_now organization
            server_type p vm_record selection scores db r
  stands_on_row organization server_type p use_gpu vm_record selection scores db none e g runs =
      let (vm, (score, (build, (health, rest)))) =
        flags_clear (λ k. k.evaluation)
          (vm_check (vm_posture to_rfc3339 now stale_limit use_gpu p.backend vm_record)
            ∷ checks_of organization server_type p selection scores db none)
          e in
      absurd (unknown health)
  stands_on_row organization server_type p use_gpu vm_record selection scores db (some r) e g runs =
      let (vm, (score, (build, (health, (capable, (bill, (certificates, (gate, (key, u))))))))) =
        flags_clear (λ k. k.evaluation)
          (vm_check (vm_posture to_rfc3339 now stale_limit use_gpu p.backend vm_record)
            ∷ checks_of organization server_type p selection scores db (some r))
          e in
      let (
        score_g,
        (build_g, (health_g, (capable_g, (bill_g, (certificates_g, (gate_g, rest)))))),
      ) =
        flags_clear (λ k. k.governance)
          (checks_of organization server_type p selection scores db (some r)) g in
      let (nonempty, steady) = scores_clear tenths _ scores score in
      let (a, b, d) =
        derive_health-healthy r.status r.credential_health_status r.platforms
          (health_clear _ health) in
      (
        r,
        refl,
        record {
          built = a;
          credential = b;
          platforms = d;
          no_build = build;
          vm = posture_clear to_rfc3339 now stale_limit use_gpu p.backend vm_record vm;
          capable = selected _ capable;
          executor = runs (selected _ capable);
          scored = nonempty;
          steady = steady;
          quota = billing_clear c now fresh db_now organization db bill;
          certification = certified to_rfc3339 json_text now _ _ _ certificates;
          promoted = gate_clear attached _ _ db gate_g;
          keys = λ q. keys_clear now _ db q key;
        },
      )

  -- The decision for a server, and the executor that is selected for it.
  abbrev pub decision :
      ℕ
      → Option ℕ
      → String
      → Option Value
      → Bool
      → Option VmAttestationRecord
      → List (String × IntelligenceScore)
      → PolicyDb
      → PolicyDecision
  decision server organization server_type config use_gpu vm_record scores db =
      (evaluate c tenths to_rfc3339 json_text executors default_backend attached stale_limit now
        fresh db_now server organization server_type config use_gpu vm_record scores db).0

  abbrev pub selected_for : Option Value → Bool → Option VmAttestationRecord → Selection
  selected_for config use_gpu vm_record =
      let p = plan default_backend config use_gpu in
      select_backend executors
        (moved_backend p.backend
          (vm_posture to_rfc3339 now stale_limit use_gpu p.backend vm_record))
        p.capability_requirements

  -- A decision that requires neither an evaluation nor an approval stands on a last artifact whose
  -- build succeeded with healthy credentials for the run and every platform, asks for no build, has a
  -- VM of an acceptable status where the configuration asks for one, a registered executor of the
  -- selected backend that supports what is required, unless nothing is, scores that are all steady, a
  -- quota that allows one more server, a valid latest certification for each requirement of the
  -- manifest in its tier and at least one of them, a ready promotion where the engine is attached, and
  -- a provider's key that does not veto where the tier requires one.
  pub evaluate-Clear :
      (server : ℕ) (organization : Option ℕ) (server_type : String) (config : Option Value)
      (use_gpu : Bool) (vm_record : Option VmAttestationRecord)
      (scores : List (String × IntelligenceScore)) (db : PolicyDb)
      → (decision server organization server_type config use_gpu vm_record scores
          db).evaluation_required
        ≡ false
      → (decision server organization server_type config use_gpu vm_record scores
          db).governance_required
        ≡ false
      → (r : BuildArtifactRun) × (latest_artifact server db ≡ some r)
        × Clear c tenths to_rfc3339 json_text executors attached now fresh db_now organization
            server_type
            (plan default_backend config use_gpu)
            vm_record
            (selected_for config use_gpu vm_record)
            scores
            db
            r
  unfolding evaluate
  evaluate-Clear server organization server_type config use_gpu vm_record scores db e g =
      stands_on_row organization server_type (plan default_backend config use_gpu) use_gpu vm_record
        (selected_for config use_gpu vm_record) scores db (latest_artifact server db) e
        (or_false _ _ g).1 (select_backend-Runs executors _ _)
