-- ===== src/Policy/Reasons.antt =====
-- What each check of backend/src/policy.rs has seen where it requires nothing.
use mcp_host.Prelude.{
  ℕ, ◌≡◌, refl, sym, subst, Bool, true, false, Option, none, some, List, [], ◌∷◌, String, Value,
  str_eq, ◌||◌, if◌then◌else◌, All, pos, Result, ok, err, inl, inr, Bool-cases, eq_iff,
}
use mcp_host.Chrono.{Calendar}
use mcp_host.Billing.Models.{BillingQuotaOutcome}
use mcp_host.Billing.Usage.{BillingError, enforce_quota}
use mcp_host.Governance.Ready.{ensure_promotion_ready}
use mcp_host.Keys.Models.{ProviderTierRequirement}
use mcp_host.Keys.Register.{summarize_for_policy, tier_requirement}
use mcp_host.Policy.Backends.{RuntimeBackend}
use mcp_host.Policy.Posture.{
  VmAttestationRecord, VmAttestationPolicyOutcome, evaluate_vm_attestation_posture,
}
use mcp_host.Policy.Certifications.{
  CertificationStatus, pending, pass, fail, EvaluationCertification, is_active,
  latest_per_requirement, by_latest, stale_detail, is_stale, verdict, certification_finding,
  all_findings, certification_gate,
}
use mcp_host.Policy.Checks.{
  IntelligenceScore, degraded, check_score, check_scores, check_each, check_health, billing_check,
  check_billing, check_certifications, gate_of, check_gate, key_requirement, check_keys,
}
use mcp_host.Policy.Decision.{PolicyDb}

pub or_false : (a b : Bool) → (a || b) ≡ false → (a ≡ false) × (b ≡ false)
or_false false false e = (refl, refl)
or_false false true e = cc
or_false true b e = cc

abbrev pub nonempty {ℓ} : {A : Type ℓ} → List A → Bool
nonempty [] = false
nonempty (x ∷ xs) = true

pub each_clear :
    (tenths : ℕ → String) (tier : Option String) (scores : List (String × IntelligenceScore))
    → (check_each tenths tier scores).evaluation ≡ false
    → All (λ x. degraded tenths tier x.0 x.1 ≡ false) scores
unfolding check_score
each_clear tenths tier [] e = tt
each_clear tenths tier ((capability, s) ∷ xs) e =
    let (a, b) = or_false _ _ e in (a, each_clear tenths tier xs b)

pub scores_clear :
    (tenths : ℕ → String) (tier : Option String) (scores : List (String × IntelligenceScore))
    → (check_scores tenths tier scores).evaluation ≡ false
    → (nonempty scores ≡ true) × All (λ x. degraded tenths tier x.0 x.1 ≡ false) scores
scores_clear tenths tier [] e = cc
scores_clear tenths tier (x ∷ xs) e = (refl, each_clear tenths tier (x ∷ xs) e)

pub health_clear :
    (s : String) → (check_health (some s)).evaluation ≡ false → str_eq s "healthy" ≡ true
unfolding check_health
health_clear s e = elim (Bool-cases (str_eq s "healthy")) [
  | inl h ↦ h
  | inr h ↦ cc (rw (h, check_health) at e)
]

pub unknown : (check_health none).evaluation ≡ false → ⊥
unfolding check_health
unknown e = cc

-- The quota of one more server is there.
abbrev pub Quota : (c : Calendar) (now fresh db_now : ℕ) → Option ℕ → PolicyDb → Type 0
Quota c now fresh db_now organization db =
    (id : ℕ) × (o : BillingQuotaOutcome) × (organization ≡ some id)
    × ((enforce_quota c now fresh db_now id "runtime.concurrent_servers" (pos 1) false db.billing).0
        ≡ ok o)
    × (o.allowed ≡ true)

outcome_clear :
    (x : Result BillingQuotaOutcome BillingError)
    → (billing_check x).evaluation ≡ false
    → (o : BillingQuotaOutcome) × (x ≡ ok o) × (o.allowed ≡ true)
outcome_clear (err m) e = cc
outcome_clear (ok o) e = elim (Bool-cases o.allowed) [
  | inl h ↦ (o, refl, h)
  | inr h ↦ cc (rw h at e)
]

pub billing_clear :
    (c : Calendar) (now fresh db_now : ℕ) (organization : Option ℕ) (db : PolicyDb)
    → (check_billing c now fresh db_now organization db.billing).evaluation ≡ false
    → Quota c now fresh db_now organization db
unfolding check_billing
billing_clear c now fresh db_now none db e = cc
billing_clear c now fresh db_now (some id) db e =
    let (o, x, a) = outcome_clear _ e in (id, o, refl, x, a)

module _ (to_rfc3339 : ℕ → String) (json_text : Value → String) (now : ℕ) where
  -- A certification that counts now.
  abbrev pub Valid : EvaluationCertification → Type 0
  Valid k =
      (k.status ≡ pass)
      × (is_active k now ≡ true)
      × (is_stale to_rfc3339 json_text
            (stale_detail to_rfc3339 json_text now k.next_refresh_at k.refresh_cadence_seconds)
          ≡ false)

  verdict_clear :
      (s : CertificationStatus) (active stale : Bool) (tier requirement : String)
      → (verdict to_rfc3339 json_text s active stale tier requirement).blocked ≡ false
      → (s ≡ pass) × (active ≡ true)
  verdict_clear pass true stale tier requirement e = (refl, refl)
  verdict_clear pass false stale tier requirement e = cc
  verdict_clear pending active stale tier requirement e = cc
  verdict_clear fail active stale tier requirement e = cc

  findings_clear :
      (tier : String) (rows : List EvaluationCertification)
      → (all_findings to_rfc3339 json_text now tier rows).blocked ≡ false
      → All Valid rows
  unfolding certification_finding
  findings_clear tier [] e = tt
  findings_clear tier (k ∷ ks) e =
      let (a, b) = or_false _ _ e in
      let (s, v) = or_false _ _ a in
      let (p, active) = verdict_clear _ _ _ _ _ v in ((p, active, s), findings_clear tier ks b)

  -- The latest certification of each requirement of the manifest in its tier counts now, and there is one.
  abbrev pub Certified : Option String → String → List EvaluationCertification → Type 0
  Certified digest tier rows =
      (d : String) × (digest ≡ some d)
      × (nonempty (latest_per_requirement d tier rows) ≡ true)
      × All Valid (latest_per_requirement d tier rows)

  latest_clear :
      (d tier : String) (rows : List EvaluationCertification)
      → (by_latest to_rfc3339 json_text now d tier rows).blocked ≡ false
      → (nonempty rows ≡ true) × All Valid rows
  latest_clear d tier [] e = cc
  latest_clear d tier (k ∷ ks) e = (refl, findings_clear tier (k ∷ ks) e)

  pub certified :
      (digest : Option String) (tier : String) (rows : List EvaluationCertification)
      → (check_certifications to_rfc3339 json_text now digest (some tier) rows).evaluation ≡ false
      → Certified digest tier rows
  unfolding certification_gate
  certified none tier rows e = cc
  certified (some d) tier rows e = let (n, a) = latest_clear d tier _ e in (d, refl, n, a)

pub gate_clear :
    (attached : Bool) (digest tier : Option String) (db : PolicyDb)
    → (check_gate (gate_of attached digest tier db.promotions)).governance ≡ false
    → attached ≡ true
    → (ensure_promotion_ready digest tier db.promotions).satisfied ≡ true
gate_clear false digest tier db e a = cc
gate_clear true digest tier db e a =
    elim (Bool-cases (ensure_promotion_ready digest tier db.promotions).satisfied) [
      | inl h ↦ h
      | inr h ↦ cc (rw h at e)
    ]

pub keys_clear :
    (now : ℕ) (tier : String) (db : PolicyDb) (q : ProviderTierRequirement)
    → (check_keys (key_requirement now (some tier) db.keys)).evaluation ≡ false
    → tier_requirement tier db.keys ≡ some q
    → q.byok_required ≡ true
    → (summarize_for_policy now q.provider_id db.keys).vetoed ≡ false
unfolding key_requirement
keys_clear now tier db q e f b =
    elim (Bool-cases (summarize_for_policy now q.provider_id db.keys).vetoed) [
      | inr h ↦ h
      | inl h ↦ cc (rw b at rw (h) at rw f at e)
    ]

-- The VM's status does not call for the fallback.
abbrev pub Acceptable : Option VmAttestationRecord → Type 0
Acceptable vm_record =
    (r : VmAttestationRecord) × (vm_record ≡ some r)
    × (str_eq r.status "untrusted" ≡ false)
    × (str_eq r.status "pending" ≡ false)
    × (str_eq r.status "unknown" ≡ false)

undecided_clear :
    (p q : Bool) (a b : VmAttestationPolicyOutcome)
    → (if p || q then a else b).evaluation_required ≡ false
    → a.evaluation_required ≡ true
    → (p ≡ false) × (q ≡ false)
undecided_clear false false a b e h = (refl, refl)
undecided_clear true q a b e h = cc
undecided_clear false true a b e h = cc

pub vm_clear :
    (to_rfc3339 : ℕ → String) (vm_record : Option VmAttestationRecord) (now stale_limit : ℕ)
    (fallback : RuntimeBackend)
    → (evaluate_vm_attestation_posture to_rfc3339 vm_record now stale_limit
        fallback).evaluation_required
      ≡ false
    → Acceptable vm_record
unfolding evaluate_vm_attestation_posture
vm_clear to_rfc3339 none now stale_limit fallback e = cc
vm_clear to_rfc3339 (some r) now stale_limit fallback e =
    elim (Bool-cases (str_eq r.status "trusted")) [
      | inl t ↦
          let apart : (s : String) → str_eq "trusted" s ≡ false → str_eq r.status s ≡ false =
            λ s h. subst (λ x. str_eq x s ≡ false) (sym ((eq_iff r.status "trusted").0 t)) h in
          (r, refl, apart "untrusted" refl, apart "pending" refl, apart "unknown" refl)
      | inr t ↦ elim (Bool-cases (str_eq r.status "untrusted")) [
        | inl u ↦ cc (rw u at rw (t, evaluate_vm_attestation_posture) at e)
        | inr u ↦
            let (p, q) =
              undecided_clear _ _ _ _ (rw u at rw (t, evaluate_vm_attestation_posture) at e) refl in
            (r, refl, u, p, q)
      ]
    ]
