-- ===== src/Policy/Checks.antt =====
-- The checks of `evaluate`, backend/src/policy.rs: what each adds to the decision.
use mcp_host.Prelude.{
  ℕ, ◌+◌, Bool, true, false, not, Option, none, some, List, [], ◌∷◌, ◌++◌, map, String, Value,
  str_eq, format, ltb, ◌&&◌, ◌||◌, if◌then◌else◌, starts_with, pos, Result, ok, err,
}
use mcp_host.Chrono.{Calendar}
use mcp_host.Trust.Outcome.{and_then, option_map}
use mcp_host.Billing.Models.{BillingDb, BillingQuotaOutcome}
use mcp_host.Billing.Usage.{BillingError, enforce_quota}
use mcp_host.Promotions.Signals.{PromotionDb}
use mcp_host.Governance.Ready.{GovernanceGateEvaluation, ensure_promotion_ready}
use mcp_host.Keys.Models.{
  ProviderKeyState, ProviderKeyRecord, ProviderTierRequirement, ProviderKeyPolicySummary, is_some,
  posture_state,
}
use mcp_host.Keys.Events.{KeyDb}
use mcp_host.Keys.Register.{summarize_for_policy, tier_requirement}
use mcp_host.Policy.Certifications.{EvaluationCertification, certification_gate}

-- The flags that a check raises, and its notes.
pub record Check : Type 0 where
  pub evaluation : Bool
  pub governance : Bool
  pub notes : List String

abbrev pub raised : Bool → List String → Check
raised both notes = record { evaluation = both; governance = both; notes = notes }

pub data IntelligenceStatus : Type 0 where
  healthy warning critical : IntelligenceStatus

abbrev pub intelligence_str : IntelligenceStatus → String
intelligence_str healthy = "healthy"
intelligence_str warning = "warning"
intelligence_str critical = "critical"

pub record IntelligenceScore : Type 0 where
  pub score : ℕ
  pub status : IntelligenceStatus

abbrev base_threshold : String → ℕ
base_threshold capability =
    if str_eq capability "runtime"
    then 6500
    else if str_eq capability "gpu"
    then 7500
    else if str_eq capability "image-build"
    then 7000
    else 6000

-- In hundredths.
unfoldable pub minimum_threshold : String → Option String → ℕ
minimum_threshold capability none = base_threshold capability
minimum_threshold capability (some tier) =
    if starts_with "gold" tier
    then base_threshold capability + 1000
    else if starts_with "silver" tier
    then base_threshold capability + 500
    else base_threshold capability

abbrev pub is_critical : IntelligenceStatus → Bool
is_critical critical = true
is_critical _ = false

module _ (tenths : ℕ → String) where
  -- One capability's score.
  abbrev pub degraded : Option String → String → IntelligenceScore → Bool
  degraded tier capability s =
      ltb s.score (minimum_threshold capability tier) || is_critical s.status

  unfoldable pub check_score : Option String → String × IntelligenceScore → Check
  check_score tier (capability, s) =
      let bad = degraded tier capability s in
      record {
        evaluation = bad;
        governance = is_critical s.status;
        notes =
            format (
              "intelligence:"
              ∷ capability
              ∷ ":"
              ∷ tenths s.score
              ∷ ":threshold:"
              ∷ tenths (minimum_threshold capability tier)
              ∷ [])
            ∷ format (
                (if bad then "intelligence:degraded:" else "intelligence:stable:")
                ∷ capability
                ∷ ":"
                ∷ intelligence_str s.status
                ∷ ":"
                ∷ tenths s.score
                ∷ [])
            ∷ [];
      }

  abbrev pub check_each : Option String → List (String × IntelligenceScore) → Check
  check_each tier [] = raised false []
  check_each tier (x ∷ xs) =
      let c = check_score tier x in
      let rest = check_each tier xs in
      record {
        evaluation = c.evaluation || rest.evaluation;
        governance = c.governance || rest.governance;
        notes = c.notes ++ rest.notes;
      }

  abbrev pub check_scores : Option String → List (String × IntelligenceScore) → Check
  check_scores tier [] = record {
    evaluation = true;
    governance = false;
    notes = "intelligence:missing-scores" ∷ [];
  }
  check_scores tier (x ∷ xs) = check_each tier (x ∷ xs)

-- The reasons of the artifact itself: a build, its health, and the capabilities.
unfoldable pub check_health : Option String → Check
check_health none = record {
  evaluation = true;
  governance = false;
  notes = "evaluation:reason:health:unknown" ∷ [];
}
check_health (some s) = if str_eq s "healthy" then raised false [] else record {
  evaluation = true;
  governance = false;
  notes = format ("evaluation:reason:health:" ∷ s ∷ []) ∷ [];
}

abbrev pub check_if : Bool → String → Check
check_if b n = record { evaluation = b; governance = false; notes = if b then n ∷ [] else [] }

abbrev pub billing_check : Result BillingQuotaOutcome BillingError → Check
billing_check (err e) = raised true ("billing:error:quota-check" ∷ [])
billing_check (ok o) =
    if o.allowed
    then raised false o.notes
    else raised true (o.notes ++ "evaluation:reason:billing" ∷ [])

-- The quota of one server is asked, and no usage is recorded.
unfoldable pub check_billing : (c : Calendar) (now fresh db_now : ℕ) → Option ℕ → BillingDb → Check
check_billing c now fresh db_now none db = raised true ("billing:organization-missing" ∷ [])
check_billing c now fresh db_now (some organization) db = billing_check (
    (enforce_quota c now fresh db_now organization "runtime.concurrent_servers" (pos 1) false db).0)

abbrev pub check_certifications :
    (to_rfc3339 : ℕ → String) (json_text : Value → String) (now : ℕ)
    → Option String
    → Option String
    → List EvaluationCertification
    → Check
check_certifications to_rfc3339 json_text now digest tier rows =
    let f = certification_gate to_rfc3339 json_text now digest tier rows in
    record { evaluation = f.blocked; governance = false; notes = f.notes }

-- The promotion gate, where the engine is attached.
abbrev pub gate_of :
    Bool → Option String → Option String → PromotionDb → Option GovernanceGateEvaluation
gate_of attached digest tier db =
    if attached then some (ensure_promotion_ready digest tier db) else none

abbrev pub check_gate : Option GovernanceGateEvaluation → Check
check_gate none = raised false []
check_gate (some g) = record { evaluation = false; governance = not g.satisfied; notes = g.notes }

pub record ProviderKeyDecisionPosture : Type 0 where
  pub provider_id : ℕ
  pub provider_key_id : Option ℕ
  pub tier : Option String
  pub state : Option ProviderKeyState
  pub rotation_due_at : Option ℕ
  pub attestation_registered : Bool
  pub attestation_signature_verified : Bool
  pub attestation_verified_at : Option ℕ
  pub vetoed : Bool
  pub notes : List String

abbrev signature_of : Option ProviderKeyRecord → Bool
signature_of none = false
signature_of (some k) = k.attestation_signature_registered

abbrev key_notes : Bool → List String → List String
key_notes true [] = "provider-key:veto" ∷ []
key_notes true (n ∷ ns) = map (λ x. format ("provider-key:" ∷ x ∷ [])) (n ∷ ns)
key_notes false ns = []

abbrev pub posture_of :
    ProviderTierRequirement → ProviderKeyPolicySummary → ProviderKeyDecisionPosture
posture_of q s = record {
  provider_id = q.provider_id;
  provider_key_id = option_map (λ k. k.id) s.record_of;
  tier = some q.tier;
  state = posture_state s;
  rotation_due_at = and_then s.record_of (λ k. k.rotation_due_at);
  attestation_registered = is_some (and_then s.record_of (λ k. k.attestation_digest));
  attestation_signature_verified = signature_of s.record_of;
  attestation_verified_at = and_then s.record_of (λ k. k.attestation_verified_at);
  vetoed = q.byok_required && s.vetoed;
  notes =
      s.notes
      ++ (if q.byok_required && not s.vetoed
          then "healthy" ∷ []
          else if not q.byok_required
          then "optional" ∷ []
          else []);
}

abbrev pub key_check : ProviderTierRequirement → ProviderKeyPolicySummary → Check
key_check q s =
    let veto = q.byok_required && s.vetoed in
    raised veto (
      if veto
      then key_notes true s.notes
      else if q.byok_required
      then "provider-key:healthy" ∷ []
      else "provider-key:optional" ∷ [])

-- The tier's requirement with the provider's summary, where there is one.
unfoldable pub key_requirement :
    (now : ℕ) → Option String → KeyDb → Option (ProviderTierRequirement × ProviderKeyPolicySummary)
key_requirement now none db = none
key_requirement now (some tier) db =
    option_map (λ q. (q, summarize_for_policy now q.provider_id db)) (tier_requirement tier db)

abbrev pub check_keys : Option (ProviderTierRequirement × ProviderKeyPolicySummary) → Check
check_keys none = raised false []
check_keys (some (q, s)) = key_check q s
