-- ===== src/Marketplace/Entitled.antt =====
-- Which providers backend/src/marketplace.rs lets submit.
use mcp_host.Prelude.{
  ℕ, ◌≡◌, refl, Bool, true, false, Option, none, some, [], String, trim, str_eq, if◌then◌else◌, inl,
  inr, arith, ◌⊎◌, Bool-cases, Result, ok, err, ok_inj, subst,
}
use mcp_host.Error.{AppError, bad_request}
use mcp_host.Keys.Events.{KeyDb}
use mcp_host.Keys.Register.{summarize_for_policy, tier_requirement}
use mcp_host.Keys.Models.{ProviderKeyRecord, ProviderTierRequirement, ProviderKeyPolicySummary}
use mcp_host.Keys.Summary.{newest_active, in_order, summarize_for_policy-vetoed}
use mcp_host.Marketplace.Models.{
  ProviderMarketplaceSubmission, ProviderMarketplaceSubmissionRequest, ProviderPostureSnapshot,
  MarketDb, AuthUser,
}
use mcp_host.Marketplace.Posture.{of_another, lacks_key, ensure_provider_marketplace_eligible}
use mcp_host.Marketplace.Handlers.{submission_row, inserted_submission, create_provider_submission}

ladder :
    (a v l : Bool) (e₁ e₂ e₃ : AppError) (x s : ProviderPostureSnapshot)
    → (if a then err e₁ else if v then err e₂ else if l then err e₃ else ok x) ≡ ok s
    → (a ≡ false) × (v ≡ false) × (l ≡ false) × (x ≡ s)
ladder false false false e₁ e₂ e₃ x s e = (refl, refl, refl, ok_inj e)
ladder false false true e₁ e₂ e₃ x s e = cc
ladder false true l e₁ e₂ e₃ x s e = cc
ladder true v l e₁ e₂ e₃ x s e = cc

-- An eligible provider: the summary of its keys has no veto, no other provider holds the tier, and its
-- snapshot carries no veto.
pub eligible :
    (uuid rfc3339 : ℕ → String) (now provider : ℕ) (tier : String) (db : KeyDb)
    (s : ProviderPostureSnapshot)
    → ensure_provider_marketplace_eligible uuid rfc3339 now provider tier db ≡ ok s
    → (of_another provider (tier_requirement tier db) ≡ false)
      × ((summarize_for_policy now provider db).vetoed ≡ false)
      × (s.vetoed ≡ false)
      × (s.notes ≡ [])
unfolding ensure_provider_marketplace_eligible
eligible uuid rfc3339 now provider tier db s e =
    let (a, v, l, x) = ladder _ _ _ _ _ _ _ s e in
    let n = (summarize_for_policy-vetoed now provider db).1.0 v in
    (a, v, subst (λ y. y.vetoed ≡ false) x v, subst (λ y. y.notes ≡ []) x n)

ladder_ok :
    (a v l : Bool) (e₁ e₂ e₃ : AppError) (x : ProviderPostureSnapshot)
    → a ≡ false
    → v ≡ false
    → l ≡ false
    → (if a then err e₁ else if v then err e₂ else if l then err e₃ else ok x) ≡ ok x
ladder_ok false false false e₁ e₂ e₃ x p q r = refl
ladder_ok false false true e₁ e₂ e₃ x p q r = cc
ladder_ok false true l e₁ e₂ e₃ x p q r = cc
ladder_ok true v l e₁ e₂ e₃ x p q r = cc

ladder_err :
    (a v l : Bool) (e₁ e₂ e₃ : AppError) (x : ProviderPostureSnapshot)
    → (a ≡ true) ⊎ (v ≡ true)
    → (e : AppError) × ((if a then err e₁ else if v then err e₂ else if l then err e₃ else ok x)
        ≡ err e)
ladder_err true v l e₁ e₂ e₃ x p = (e₁, refl)
ladder_err false true l e₁ e₂ e₃ x p = (e₂, refl)
ladder_err false false l e₁ e₂ e₃ x (inl p) = cc
ladder_err false false l e₁ e₂ e₃ x (inr p) = cc

has_key :
    (q : Option ProviderTierRequirement) (s : ProviderKeyPolicySummary) (k : ProviderKeyRecord)
    → s.record_of ≡ some k
    → lacks_key q s ≡ false
has_key none s k e = refl
has_key (some q) s k e = rw e (ground arith)

module _ (uuid rfc3339 : ℕ → String) (now db_now event_id new_id provider : ℕ) (user : AuthUser)
    (q : ProviderMarketplaceSubmissionRequest) (db : MarketDb) where
  abbrev submitted : Result ProviderMarketplaceSubmission AppError × MarketDb
  submitted = create_provider_submission uuid rfc3339 now db_now event_id user new_id provider q db

  abbrev pub requirement : Option ProviderTierRequirement
  requirement = tier_requirement (trim q.tier) db.keys

  abbrev answer : Result ProviderPostureSnapshot AppError
  answer = ensure_provider_marketplace_eligible uuid rfc3339 now provider (trim q.tier) db.keys

  refused :
      (of_another provider requirement ≡ true)
        ⊎ ((summarize_for_policy now provider db.keys).vetoed ≡ true)
      → (e : AppError) × (answer ≡ err e)
  unfolding ensure_provider_marketplace_eligible
  refused p = ladder_err _ _ _ _ _ _ _ p

  admitted :
      (k : ProviderKeyRecord)
      → of_another provider requirement ≡ false
      → (summarize_for_policy now provider db.keys).vetoed ≡ false
      → (summarize_for_policy now provider db.keys).record_of ≡ some k
      → (s : ProviderPostureSnapshot) × (answer ≡ ok s)
  unfolding ensure_provider_marketplace_eligible
  admitted k o v r = (_, ladder_ok _ _ _ _ _ _ _ o v (has_key requirement _ k r))

  -- A submission is refused, and nothing is written, exactly where it has no manifest, another provider
  -- holds its tier, or the provider's keys are vetoed, which does not depend on whether the tier requires a
  -- key; otherwise the provider's newest active key is in order, and one row with its event is written.
  pub create_provider_submission_lem :
      (((str_eq (trim q.manifest_uri) "" ≡ true)
          ⊎ (of_another provider requirement ≡ true)
          ⊎ ((summarize_for_policy now provider db.keys).vetoed ≡ true))
        × ((e : AppError) × (submitted ≡ (err e, db))))
      ⊎ ((k : ProviderKeyRecord) × (s : ProviderPostureSnapshot) × (newest_active provider db.keys
            ≡ some k)
          × (in_order now k ≡ true)
          × (of_another provider requirement ≡ false)
          × (s.vetoed ≡ false)
          × (submitted ≡ (
            ok (submission_row uuid rfc3339 now db_now event_id user new_id provider q s),
            inserted_submission uuid rfc3339 now db_now event_id user
                (submission_row uuid rfc3339 now db_now event_id user new_id provider q s)
                db,
          )))
  unfolding create_provider_submission
  create_provider_submission_lem = elim (Bool-cases (str_eq (trim q.manifest_uri) "")) [
    | inl u ↦
        inl (inl u, (bad_request "manifest_uri required", rw (u, create_provider_submission) refl))
    | inr u ↦ elim (Bool-cases (of_another provider requirement)) [
      | inl o ↦
          let (e, r) = refused (inl o) in
          inl (inr (inl o), (e, rw (u, create_provider_submission) (rw r refl)))
      | inr o ↦ elim (Bool-cases (summarize_for_policy now provider db.keys).vetoed) [
        | inl v ↦
            let (e, r) = refused (inr v) in
            inl (inr (inr v), (e, rw (u, create_provider_submission) (rw r refl)))
        | inr v ↦
            let (k, newest, order, there) =
              (summarize_for_policy-vetoed now provider db.keys).0.0 v in
            let (s, r) = admitted k o v there in
            let (a, b, w, n) = eligible uuid rfc3339 now provider (trim q.tier) db.keys s r in
            inr (k, s, newest, order, o, w, rw (u, create_provider_submission) (rw r (rw w refl)))
      ]
    ]
  ]
