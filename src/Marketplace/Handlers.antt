-- ===== src/Marketplace/Handlers.antt =====
-- backend/src/marketplace.rs: the handlers of a provider's submissions. The broadcast of an event is left
-- out.
use mcp_host.Prelude.{
  ℕ, Option, none, some, List, [], ◌∷◌, ◌++◌, String, Value, object, string, no_entry, entry,
  format, show_nat, trim, to_lowercase, str_eq, ◌==◌, ◌&&◌, if◌then◌else◌, find, update_where,
  Result, ok, err,
}
use mcp_host.Error.{AppError, bad_request, not_found}
use mcp_host.Marketplace.Models.{
  ProviderMarketplaceSubmission, ProviderMarketplaceEvaluation, ProviderMarketplacePromotion,
  MarketplaceEvent, ProviderMarketplaceSubmissionRequest, ProviderMarketplaceEvaluationRequest,
  ProviderMarketplaceEvaluationTransition, ProviderMarketplacePromotionRequest,
  ProviderMarketplacePromotionTransition, ProviderPostureSnapshot, MarketDb, AuthUser,
}
use mcp_host.Marketplace.Posture.{vetoed_reason, instant, ensure_provider_marketplace_eligible}

-- `value.and_then` on the trimmed text, none where it is empty
abbrev pub trimmed : Option String → Option String
trimmed none = none
trimmed (some s) = if str_eq (trim s) "" then none else some (trim s)

abbrev pub unwrap_or {ℓ} : {A : Type ℓ} → A → Option A → A
unwrap_or a none = a
unwrap_or a (some b) = b

-- COALESCE(new, old)
abbrev pub coalesce {ℓ} : {A : Type ℓ} → Option A → Option A → Option A
coalesce none old = old
coalesce (some a) old = some a

abbrev found {ℓ} : {A : Type ℓ} → Option A → Result A AppError
found none = err not_found
found (some a) = ok a

unfoldable pub fetch_submission : ℕ → ℕ → MarketDb → Result ProviderMarketplaceSubmission AppError
fetch_submission provider submission db =
    found (find (λ s. (s.id == submission) && (s.provider_id == provider)) db.submissions)

unfoldable pub fetch_evaluation :
    ℕ
    → ℕ
    → MarketDb
    → Result (ProviderMarketplaceEvaluation × ProviderMarketplaceSubmission) AppError
fetch_evaluation provider evaluation db = elim (find (λ e. e.id == evaluation) db.evaluations) [
  | none ↦ err not_found
  | some e ↦ elim (fetch_submission provider e.submission_id db) [
    | err x ↦ err x
    | ok s ↦ ok (e, s)
  ]
]

unfoldable pub fetch_promotion :
    ℕ
    → ℕ
    → MarketDb
    → Result
        (ProviderMarketplacePromotion × ProviderMarketplaceEvaluation
          × ProviderMarketplaceSubmission)
        AppError
fetch_promotion provider promotion db = elim (find (λ p. p.id == promotion) db.promotions) [
  | none ↦ err not_found
  | some p ↦ elim (fetch_evaluation provider p.evaluation_id db) [
    | err x ↦ err x
    | ok (e, s) ↦ ok (p, e, s)
  ]
]

unfoldable pub record_marketplace_event : MarketplaceEvent → MarketDb → MarketDb
record_marketplace_event e db = record db { events = db.events ++ e ∷ [] }

-- `event_id` and `db_now` are the event's number and the database's clock.
module _ (uuid rfc3339 : ℕ → String) (now db_now event_id : ℕ) (user : AuthUser) where
  abbrev actor : String
  actor = format ("user:" ∷ user.role ∷ ":" ∷ show_nat user.user_id ∷ [])

  abbrev pub event : ℕ → Option ℕ → Option ℕ → String → Value → MarketplaceEvent
  event submission evaluation promotion type payload = record {
    id = event_id;
    submission_id = some submission;
    evaluation_id = evaluation;
    promotion_id = promotion;
    actor_ref = some actor;
    event_type = type;
    payload = payload;
    occurred_at = db_now;
  }

  abbrev pub submission_row :
      (new_id : ℕ)
      → ℕ
      → ProviderMarketplaceSubmissionRequest
      → ProviderPostureSnapshot
      → ProviderMarketplaceSubmission
  submission_row new_id provider q s = record {
    id = new_id;
    provider_id = provider;
    submitted_by = some user.user_id;
    tier = trim q.tier;
    manifest_uri = trim q.manifest_uri;
    artifact_digest = trimmed q.artifact_digest;
    release_notes = trimmed q.release_notes;
    posture_state = s.state;
    posture_vetoed = s.vetoed;
    posture_notes = s.notes;
    status = "pending";
    metadata = unwrap_or (object no_entry) q.metadata;
    created_at = db_now;
    updated_at = db_now;
  }

  abbrev pub inserted_submission : ProviderMarketplaceSubmission → MarketDb → MarketDb
  inserted_submission row db =
      record_marketplace_event
        (event row.id none none "submission_created" (
          object (
            entry "tier" (string row.tier) (
              entry "manifest_uri" (string row.manifest_uri)
                (entry "status" (string row.status) no_entry)))))
        (record db { submissions = db.submissions ++ row ∷ [] })

  unfoldable pub create_provider_submission :
      (new_id : ℕ)
      → ℕ
      → ProviderMarketplaceSubmissionRequest
      → MarketDb
      → Result ProviderMarketplaceSubmission AppError × MarketDb
  create_provider_submission new_id provider q db =
      if str_eq (trim q.manifest_uri) ""
      then (err (bad_request "manifest_uri required"), db)
      else elim (ensure_provider_marketplace_eligible uuid rfc3339 now provider (trim q.tier)
          db.keys) [
            | err e ↦ (err e, db)
            | ok s ↦
                let row = submission_row new_id provider q s in
                if s.vetoed
                then (err (bad_request (vetoed_reason s.notes)), db)
                else (ok row, inserted_submission row db)
          ]

  abbrev pub evaluation_row :
      (new_id : ℕ)
      → ℕ
      → String
      → ProviderMarketplaceEvaluationRequest
      → ProviderPostureSnapshot
      → ProviderMarketplaceEvaluation
  evaluation_row new_id submission status q s = record {
    id = new_id;
    submission_id = submission;
    evaluation_type = trim q.evaluation_type;
    status = status;
    started_at = db_now;
    completed_at = none;
    evaluator_ref = trimmed q.evaluator_ref;
    result = unwrap_or (object no_entry) q.result;
    posture_state = s.state;
    posture_vetoed = s.vetoed;
    posture_notes = s.notes;
    created_at = db_now;
    updated_at = db_now;
  }

  abbrev pub inserted_evaluation : ProviderMarketplaceEvaluation → MarketDb → MarketDb
  inserted_evaluation row db =
      record_marketplace_event
        (event row.submission_id (some row.id) none "evaluation_started" (
          object (
            entry "evaluation_type" (string row.evaluation_type)
              (entry "status" (string row.status) no_entry))))
        (record db { evaluations = db.evaluations ++ row ∷ [] })

  unfoldable pub create_evaluation_run :
      (new_id : ℕ)
      → ℕ
      → ℕ
      → ProviderMarketplaceEvaluationRequest
      → MarketDb
      → Result ProviderMarketplaceEvaluation AppError × MarketDb
  create_evaluation_run new_id provider submission q db =
      elim (fetch_submission provider submission db) [
        | err e ↦ (err e, db)
        | ok sub ↦
            elim (ensure_provider_marketplace_eligible uuid rfc3339 now provider sub.tier db.keys) [
              | err e ↦ (err e, db)
              | ok s ↦
                  let status = to_lowercase (trim (unwrap_or "running" q.status)) in
                  let row = evaluation_row new_id sub.id status q s in
                  if s.vetoed
                  then (err (bad_request (vetoed_reason s.notes)), db)
                  else if str_eq status ""
                  then (err (bad_request "status must be non-empty"), db)
                  else (ok row, inserted_evaluation row db)
            ]
      ]

  abbrev pub moved_evaluation :
      ProviderMarketplaceEvaluationTransition
      → Value
      → ProviderMarketplaceEvaluation
      → ProviderMarketplaceEvaluation
  moved_evaluation q result e = record e {
    status = trim q.status;
    completed_at = coalesce q.completed_at e.completed_at;
    result = result;
    updated_at = db_now;
  }

  unfoldable pub transition_evaluation_run :
      ℕ
      → ℕ
      → ProviderMarketplaceEvaluationTransition
      → MarketDb
      → Result ProviderMarketplaceEvaluation AppError × MarketDb
  transition_evaluation_run provider evaluation q db =
      elim (fetch_evaluation provider evaluation db) [
        | err x ↦ (err x, db)
        | ok (e, s) ↦
            let change = moved_evaluation q (unwrap_or e.result q.result) in
            if str_eq (trim q.status) ""
            then (err (bad_request "status must be non-empty"), db)
            else (
              ok (change e),
              record_marketplace_event
                  (event s.id (some e.id) none "evaluation_transitioned" (
                    object (
                      entry "status" (string (trim q.status)) (
                        entry "completed_at" (instant uuid rfc3339 (change e).completed_at)
                          no_entry))))
                  (record db {
                    evaluations = update_where (λ x. x.id == e.id) change db.evaluations;
                  }),
            )
      ]

  abbrev pub promotion_row :
      (new_id : ℕ) → ℕ → String → ProviderMarketplacePromotionRequest → ProviderMarketplacePromotion
  promotion_row new_id evaluation status q = record {
    id = new_id;
    evaluation_id = evaluation;
    gate = trim q.gate;
    status = status;
    opened_at = db_now;
    closed_at = none;
    notes = unwrap_or [] q.notes;
    created_at = db_now;
    updated_at = db_now;
  }

  unfoldable pub create_promotion_gate :
      (new_id : ℕ)
      → ℕ
      → ℕ
      → ProviderMarketplacePromotionRequest
      → MarketDb
      → Result ProviderMarketplacePromotion AppError × MarketDb
  create_promotion_gate new_id provider evaluation q db =
      elim (fetch_evaluation provider evaluation db) [
        | err x ↦ (err x, db)
        | ok (e, s) ↦
            let status = trim (unwrap_or "pending" q.status) in
            let row = promotion_row new_id e.id status q in
            if str_eq status ""
            then (err (bad_request "status must be non-empty"), db)
            else if str_eq (trim q.gate) ""
            then (err (bad_request "gate must be non-empty"), db)
            else (
              ok row,
              record_marketplace_event
                  (event s.id (some e.id) (some row.id) "promotion_created" (
                    object (
                      entry "gate" (string row.gate)
                        (entry "status" (string row.status) no_entry))))
                  (record db { promotions = db.promotions ++ row ∷ [] }),
            )
      ]

  abbrev pub moved_promotion :
      ProviderMarketplacePromotionTransition
      → List String
      → ProviderMarketplacePromotion
      → ProviderMarketplacePromotion
  moved_promotion q notes p = record p {
    status = trim q.status;
    notes = notes;
    closed_at = coalesce q.closed_at p.closed_at;
    updated_at = db_now;
  }

  unfoldable pub transition_promotion_gate :
      ℕ
      → ℕ
      → ProviderMarketplacePromotionTransition
      → MarketDb
      → Result ProviderMarketplacePromotion AppError × MarketDb
  transition_promotion_gate provider promotion q db = elim (fetch_promotion provider promotion db) [
    | err x ↦ (err x, db)
    | ok (p, e, s) ↦
        let change = moved_promotion q (unwrap_or p.notes q.notes) in
        if str_eq (trim q.status) "" then (err (bad_request "status must be non-empty"), db) else (
          ok (change p),
          record_marketplace_event
              (event s.id (some e.id) (some p.id) "promotion_transitioned" (
                object (
                  entry "status" (string (trim q.status))
                    (entry "closed_at" (instant uuid rfc3339 (change p).closed_at) no_entry))))
              (record db { promotions = update_where (λ x. x.id == p.id) change db.promotions }),
        )
  ]
