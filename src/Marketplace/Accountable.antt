-- ===== src/Marketplace/Accountable.antt =====
-- What the handlers of backend/src/marketplace.rs keep: every row hangs on a row above it, no row carries a
-- veto, and every event names rows that hang together.
use mcp_host.Prelude.{
  ℕ, refl, List, [], ◌∷◌, String, trim, to_lowercase, str_eq, ◌==◌, ==_refl, ◌&&◌, In-any,
  In-appended, inl, inr, Bool-cases, Result-cases,
}
use mcp_host.Keys.Events.{KeyDb}
use mcp_host.Marketplace.Models.{
  ProviderMarketplaceSubmissionRequest, ProviderMarketplaceEvaluationRequest,
  ProviderMarketplaceEvaluationTransition, ProviderMarketplacePromotionRequest,
  ProviderMarketplacePromotionTransition, MarketDb, AuthUser,
}
use mcp_host.Marketplace.Posture.{ensure_provider_marketplace_eligible}
use mcp_host.Marketplace.Handlers.{
  fetch_submission, fetch_evaluation, fetch_promotion, record_marketplace_event, unwrap_or,
  submission_row, create_provider_submission, create_evaluation_run, transition_evaluation_run,
  create_promotion_gate, transition_promotion_gate,
}
use mcp_host.Marketplace.Changed.{
  with_submission, with_evaluation, with_promotion, with_evaluation_moved, with_promotion_moved,
}
use mcp_host.Marketplace.Rows.{
  fetch_submission-there, fetch_evaluation-there, fetch_promotion-there, Accountable,
}
use mcp_host.Marketplace.Entitled.{eligible}

-- The clocks and new numbers that a request meets, its user and the provider in its path.
pub record Call : Type 0 where
  pub now : ℕ
  pub db_now : ℕ
  pub event_id : ℕ
  pub new_id : ℕ
  pub user : AuthUser
  pub provider : ℕ

-- A request to one of the handlers, or any change of the providers' keys between them.
pub data MarketRequest : Type 0 where
  submit : Call → ProviderMarketplaceSubmissionRequest → MarketRequest
  evaluate : Call → ℕ → ProviderMarketplaceEvaluationRequest → MarketRequest
  move_evaluation : Call → ℕ → ProviderMarketplaceEvaluationTransition → MarketRequest
  open_gate : Call → ℕ → ProviderMarketplacePromotionRequest → MarketRequest
  move_gate : Call → ℕ → ProviderMarketplacePromotionTransition → MarketRequest
  change_keys : KeyDb → MarketRequest

module _ (uuid rfc3339 : ℕ → String) where
  unfoldable pub handle : MarketRequest → MarketDb → MarketDb
  handle (submit c q) db =
      (create_provider_submission uuid rfc3339 c.now c.db_now c.event_id c.user c.new_id c.provider
        q db).1
  handle (evaluate c submission q) db =
      (create_evaluation_run uuid rfc3339 c.now c.db_now c.event_id c.user c.new_id c.provider
        submission q db).1
  handle (move_evaluation c evaluation q) db =
      (transition_evaluation_run uuid rfc3339 c.now c.db_now c.event_id c.user c.provider evaluation
        q db).1
  handle (open_gate c evaluation q) db =
      (create_promotion_gate uuid rfc3339 c.now c.db_now c.event_id c.user c.new_id c.provider
        evaluation q db).1
  handle (move_gate c promotion q) db =
      (transition_promotion_gate uuid rfc3339 c.now c.db_now c.event_id c.user c.provider promotion
        q db).1
  handle (change_keys keys) db = record db { keys = keys }

  abbrev pub serve : List MarketRequest → MarketDb → MarketDb
  serve [] db = db
  serve (q ∷ qs) db = serve qs (handle q db)

  submit_kept :
      (c : Call) (q : ProviderMarketplaceSubmissionRequest) (db : MarketDb)
      → Accountable db
      → Accountable (handle (submit c q) db)
  unfolding handle create_provider_submission record_marketplace_event
  submit_kept c q db a = elim (Bool-cases (str_eq (trim q.manifest_uri) "")) [
    | inl u ↦ rw (u, handle, create_provider_submission) a
    | inr u ↦
        elim (Result-cases (
          ensure_provider_marketplace_eligible uuid rfc3339 c.now c.provider (trim q.tier)
            db.keys)) [
              | inr (m, e) ↦ rw (u, handle, create_provider_submission) (rw e a)
              | inl (s, e) ↦
                  let (other, sum, v, n) =
                    eligible uuid rfc3339 c.now c.provider (trim q.tier) db.keys s e in
                  let row =
                    submission_row uuid rfc3339 c.now c.db_now c.event_id c.user c.new_id c.provider
                      q s in
                  rw (u, handle, create_provider_submission)
                    (rw e (
                      rw v (
                        with_submission db _ a _ (refl, n)
                          (
                            c.new_id,
                            refl,
                            In-any (λ x. x.id == c.new_id) _ _ (In-appended db.submissions _)
                                (==_refl c.new_id),
                            tt,
                            tt,
                          ))))
            ]
  ]

  evaluate_kept :
      (c : Call) (submission : ℕ) (q : ProviderMarketplaceEvaluationRequest) (db : MarketDb)
      → Accountable db
      → Accountable (handle (evaluate c submission q) db)
  unfolding handle create_evaluation_run record_marketplace_event
  evaluate_kept c submission q db a =
      elim (Result-cases (fetch_submission c.provider submission db)) [
        | inr (m, f) ↦ rw (f, handle, create_evaluation_run) a
        | inl (sub, f) ↦
            elim (Result-cases (
              ensure_provider_marketplace_eligible uuid rfc3339 c.now c.provider sub.tier
                db.keys)) [
                  | inr (m, e) ↦ rw (f, handle, create_evaluation_run) (rw e a)
                  | inl (s, e) ↦
                      let (other, sum, v, n) =
                        eligible uuid rfc3339 c.now c.provider sub.tier db.keys s e in
                      let (number, owner, there) =
                        fetch_submission-there c.provider submission db sub f in
                      elim (Bool-cases
                        (str_eq (to_lowercase (trim (unwrap_or "running" q.status))) "")) [
                          | inl u ↦ rw (f, handle, create_evaluation_run) (rw e (rw v (rw u a)))
                          | inr u ↦
                              rw (f, handle, create_evaluation_run)
                                (rw e (
                                  rw v (
                                    rw u (
                                      with_evaluation db _ a _ (there, refl, n)
                                        (
                                          sub.id,
                                          refl,
                                          there,
                                          In-any
                                              (λ x.
                                                (x.id == c.new_id) && (x.submission_id == sub.id))
                                              _ _ (In-appended db.evaluations _)
                                              (rw (==_refl c.new_id) (==_refl sub.id)),
                                          tt,
                                        )))))
                        ]
                ]
      ]

  move_evaluation_kept :
      (c : Call) (evaluation : ℕ) (q : ProviderMarketplaceEvaluationTransition) (db : MarketDb)
      → Accountable db
      → Accountable (handle (move_evaluation c evaluation q) db)
  unfolding handle transition_evaluation_run record_marketplace_event
  move_evaluation_kept c evaluation q db a =
      elim (Result-cases (fetch_evaluation c.provider evaluation db)) [
        | inr (m, f) ↦ rw (f, handle, transition_evaluation_run) a
        | inl ((e, s), f) ↦ elim (Bool-cases (str_eq (trim q.status) "")) [
          | inl u ↦ rw (f, handle, transition_evaluation_run) (rw u a)
          | inr u ↦
              let (there, owner, on, known, number) =
                fetch_evaluation-there c.provider evaluation db e s f in
              rw (f, handle, transition_evaluation_run)
                (rw u (
                  with_evaluation_moved db _ a _ _ (λ x. (refl, refl, refl, refl))
                    (s.id, refl, there, on, tt)))
        ]
      ]

  open_gate_kept :
      (c : Call) (evaluation : ℕ) (q : ProviderMarketplacePromotionRequest) (db : MarketDb)
      → Accountable db
      → Accountable (handle (open_gate c evaluation q) db)
  unfolding handle create_promotion_gate record_marketplace_event
  open_gate_kept c evaluation q db a =
      elim (Result-cases (fetch_evaluation c.provider evaluation db)) [
        | inr (m, f) ↦ rw (f, handle, create_promotion_gate) a
        | inl ((e, s), f) ↦ elim (Bool-cases (str_eq (trim (unwrap_or "pending" q.status)) "")) [
          | inl u ↦ rw (f, handle, create_promotion_gate) (rw u a)
          | inr u ↦ elim (Bool-cases (str_eq (trim q.gate) "")) [
            | inl w ↦ rw (f, handle, create_promotion_gate) (rw u (rw w a))
            | inr w ↦
                let (there, owner, on, known, number) =
                  fetch_evaluation-there c.provider evaluation db e s f in
                rw (f, handle, create_promotion_gate)
                  (rw u (
                    rw w (
                      with_promotion db _ a _ known (
                        s.id,
                        refl,
                        there,
                        on,
                        In-any (λ x. (x.id == c.new_id) && (x.evaluation_id == e.id)) _ _
                            (In-appended db.promotions _) (rw (==_refl c.new_id) (==_refl e.id)),
                      ))))
          ]
        ]
      ]

  move_gate_kept :
      (c : Call) (promotion : ℕ) (q : ProviderMarketplacePromotionTransition) (db : MarketDb)
      → Accountable db
      → Accountable (handle (move_gate c promotion q) db)
  unfolding handle transition_promotion_gate record_marketplace_event
  move_gate_kept c promotion q db a =
      elim (Result-cases (fetch_promotion c.provider promotion db)) [
        | inr (m, f) ↦ rw (f, handle, transition_promotion_gate) a
        | inl ((p, e, s), f) ↦ elim (Bool-cases (str_eq (trim q.status) "")) [
          | inl u ↦ rw (f, handle, transition_promotion_gate) (rw u a)
          | inr u ↦
              let (there, on, gate) = fetch_promotion-there c.provider promotion db p e s f in
              rw (f, handle, transition_promotion_gate)
                (rw u (
                  with_promotion_moved db _ a _ _ (λ x. (refl, refl))
                    (s.id, refl, there, on, gate)))
        ]
      ]

  handle_kept : (q : MarketRequest) (db : MarketDb) → Accountable db → Accountable (handle q db)
  unfolding handle
  handle_kept (submit c q) db a = submit_kept c q db a
  handle_kept (evaluate c submission q) db a = evaluate_kept c submission q db a
  handle_kept (move_evaluation c evaluation q) db a = move_evaluation_kept c evaluation q db a
  handle_kept (open_gate c evaluation q) db a = open_gate_kept c evaluation q db a
  handle_kept (move_gate c promotion q) db a = move_gate_kept c promotion q db a
  handle_kept (change_keys keys) db a = record {
    submissions = a.submissions;
    evaluations = a.evaluations;
    promotions = a.promotions;
    events = a.events;
  }

  -- Whatever sequence of requests is served, with any changes of the providers' keys between them, every
  -- evaluation is one of a submission that is there and every promotion gate one of an evaluation that is
  -- there, no submission or evaluation carries a veto or a note of one, and every event names a submission
  -- that is there with an evaluation of it and a promotion gate of that evaluation, as far as it names them.
  pub serve-Accountable :
      (qs : List MarketRequest) (db : MarketDb) → Accountable db → Accountable (serve qs db)
  serve-Accountable [] db a = a
  serve-Accountable (q ∷ qs) db a = serve-Accountable qs (handle q db) (handle_kept q db a)
