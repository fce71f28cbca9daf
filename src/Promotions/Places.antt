-- ===== src/Promotions/Places.antt =====
-- One promotion of a digest at a stage of a track, whatever backend/src/promotions.rs does.
use mcp_host.Prelude.{
  ℕ, ◌≡◌, refl, ◌∙◌, Bool, false, ◌||◌, Option, List, [], ◌∷◌, ◌++◌, String, ◌==◌, eq_iff, any,
  update_where, inl, inr, Bool-cases, Option-cases, Result-cases, find, arith,
}
use mcp_host.Promotions.Signals.{ArtifactPromotion, PromotionDb}
use mcp_host.Governance.Models.{StartWorkflowRunRequest, RunStatusUpdateRequest}
use mcp_host.Governance.Runs.{at_place, own_run, start_workflow_run}
use mcp_host.Governance.Status.{move_run, sync_promotion_status, update_run_status}
use mcp_host.Promotions.Schedule.{
  SchedulePromotionRequest, exists_at, promotion_row, schedule_promotion, approve_promotion,
}
use mcp_host.Promotions.Admission.{schedule_promotion-Admitted}

abbrev same_place : ArtifactPromotion → ArtifactPromotion → Bool
same_place p q = at_place p.promotion_track_id p.stage p.manifest_digest q

-- The table's UNIQUE (promotion_track_id, stage, manifest_digest).
unfoldable pub OnePerPlace : List ArtifactPromotion → Type 0
OnePerPlace [] = Unit
OnePerPlace (p ∷ ps) = (any (same_place p) ps ≡ false) × OnePerPlace ps

same_place_sym : (p q : ArtifactPromotion) → same_place p q ≡ same_place q p
same_place_sym p q = ground (
  arith,
  eq_iff p.stage q.stage,
  eq_iff q.stage p.stage,
  eq_iff p.manifest_digest q.manifest_digest,
  eq_iff q.manifest_digest p.manifest_digest,
)

any-append :
    (test : ArtifactPromotion → Bool) (ps : List ArtifactPromotion) (q : ArtifactPromotion)
    → any test (ps ++ q ∷ []) ≡ (any test ps || test q)
any-append test [] q = ground arith
any-append test (p ∷ ps) q = rw (any-append test ps q) (ground arith)

or_left : (a b : Bool) → (a || b) ≡ false → a ≡ false
or_left a b e = ground arith

or_right : (a b : Bool) → (a || b) ≡ false → b ≡ false
or_right a b e = ground arith

append-OnePerPlace :
    (ps : List ArtifactPromotion) (q : ArtifactPromotion)
    → OnePerPlace ps
    → any (same_place q) ps ≡ false
    → OnePerPlace (ps ++ q ∷ [])
unfolding OnePerPlace
append-OnePerPlace [] q u f = (refl, tt)
append-OnePerPlace (p ∷ ps) q u f = (
  any-append (same_place p) ps q ∙ rw u.0 (same_place_sym p q ∙ or_left _ _ f),
  append-OnePerPlace ps q u.1 (or_right (same_place q p) _ f),
)

module _ (test : ArtifactPromotion → Bool) (change : ArtifactPromotion → ArtifactPromotion)
    (keeps : (p : ArtifactPromotion)
      → ((change p).promotion_track_id ≡ p.promotion_track_id)
        × ((change p).stage ≡ p.stage)
        × ((change p).manifest_digest ≡ p.manifest_digest)) where
  any-update :
      (p : ArtifactPromotion) (ps : List ArtifactPromotion)
      → any (same_place p) (update_where test change ps) ≡ any (same_place p) ps
  any-update p [] = refl
  any-update p (q ∷ qs) = elim (Bool-cases (test q)) [
    | inl e ↦ rw e (rw (keeps q).0 (rw (keeps q).1 (rw (keeps q).2 (rw (any-update p qs) refl))))
    | inr e ↦ rw e (rw (any-update p qs) refl)
  ]

  update-OnePerPlace :
      (ps : List ArtifactPromotion) → OnePerPlace ps → OnePerPlace (update_where test change ps)
  unfolding OnePerPlace
  update-OnePerPlace [] u = tt
  update-OnePerPlace (p ∷ ps) u = elim (Bool-cases (test p)) [
    | inl e ↦ rw e (
        rw (keeps p).0
          (rw (keeps p).1 (rw (keeps p).2 (any-update p ps ∙ u.0, update-OnePerPlace ps u.1))))
    | inr e ↦ rw e (any-update p ps ∙ u.0, update-OnePerPlace ps u.1)
  ]

-- The start of a run writes no promotion.
pub start_workflow_run-promotions :
    (db_now next_run next_step workflow owner : ℕ) (q : StartWorkflowRunRequest) (db : PromotionDb)
    → (start_workflow_run db_now next_run next_step workflow owner q db).1.promotions
      ≡ db.promotions
unfolding start_workflow_run
start_workflow_run-promotions db_now next_run next_step workflow owner q db =
    elim (Option-cases (find (λ w. w.id == workflow) db.governance.workflows)) [
      | inl n ↦ rw (n, start_workflow_run) refl
      | inr (w, s) ↦ elim (Bool-cases (w.owner_id == owner)) [
        | inl e ↦ rw (s, start_workflow_run) (rw e refl)
        | inr e ↦ rw (s, start_workflow_run) (rw e refl)
      ]
    ]

module _ (tenths : ℕ → String) where
  -- The writes of the promotions table: a request, which may start a workflow's run; an approval; and a
  -- run that takes a status.
  pub data Step (db : PromotionDb) : PromotionDb → Type 0 where
    schedule :
        (next_run next_step db_now next_id user : ℕ) (r : SchedulePromotionRequest)
        → Step db (schedule_promotion tenths next_run next_step db_now next_id user r db).1
    approve :
        (db_now user id : ℕ) (extra : Option String)
        → Step db (approve_promotion db_now user id extra db).1
    start :
        (db_now next_run next_step workflow user : ℕ) (q : StartWorkflowRunRequest)
        → Step db (start_workflow_run db_now next_run next_step workflow user q db).1
    update :
        (db_now next_log run user : ℕ) (payload : RunStatusUpdateRequest)
        → Step db (update_run_status db_now next_log run user payload db).1

  pub data Steps (db : PromotionDb) : PromotionDb → Type 0 where
    unmoved : Steps db db
    more : {mid last : PromotionDb} → Steps db mid → Step mid last → Steps db last

  start-OnePerPlace :
      (db_now next_run next_step workflow user : ℕ) (q : StartWorkflowRunRequest) (db : PromotionDb)
      → OnePerPlace db.promotions
      → OnePerPlace (start_workflow_run db_now next_run next_step workflow user q db).1.promotions
  start-OnePerPlace db_now next_run next_step workflow user q db u =
      rw (start_workflow_run-promotions db_now next_run next_step workflow user q db) u

  schedule-OnePerPlace :
      (next_run next_step db_now next_id user : ℕ) (r : SchedulePromotionRequest) (db : PromotionDb)
      → OnePerPlace db.promotions
      → OnePerPlace
          (schedule_promotion tenths next_run next_step db_now next_id user r db).1.promotions
  unfolding exists_at
  schedule-OnePerPlace next_run next_step db_now next_id user r db u =
      elim (schedule_promotion-Admitted tenths user r db next_run next_step db_now next_id) [
        | inl (e, refused) ↦ rw refused u
        | inr (track, ad, s) ↦ rw s (
            append-OnePerPlace db.promotions (promotion_row tenths db_now next_id user r db track) u
              ad.free)
      ]

  approve-OnePerPlace :
      (db_now user id : ℕ) (extra : Option String) (db : PromotionDb)
      → OnePerPlace db.promotions
      → OnePerPlace (approve_promotion db_now user id extra db).1.promotions
  unfolding approve_promotion
  approve-OnePerPlace db_now user id extra db u =
      elim (Bool-cases (any (λ p. p.id == id) db.promotions)) [
        | inl e ↦
            rw e (update-OnePerPlace (λ p. p.id == id) _ (λ p. (refl, refl, refl)) db.promotions u)
        | inr e ↦ rw e u
      ]

  status-OnePerPlace :
      (db_now next_log run user : ℕ) (payload : RunStatusUpdateRequest) (db : PromotionDb)
      → OnePerPlace db.promotions
      → OnePerPlace (update_run_status db_now next_log run user payload db).1.promotions
  unfolding update_run_status
  status-OnePerPlace db_now next_log run user payload db u =
      elim (Option-cases (find (own_run db.governance user run) db.governance.workflow_runs)) [
        | inl n ↦ rw (n, update_run_status) u
        | inr (r, s) ↦
            elim (Result-cases (
              sync_promotion_status r.id
                (move_run db_now next_log run user payload db.governance))) [
                  | inl (t, e) ↦ rw (s, update_run_status) (rw e u)
                  | inr (x, e) ↦ rw (s, update_run_status) (rw e u)
                ]
      ]

  -- Whatever sequence of requests, approvals, starts of workflow runs and moves of their status is made,
  -- there is never more than one promotion of a digest at a stage of a track, if there was not at first.
  pub Steps-OnePerPlace :
      {db last : PromotionDb}
      → Steps db last
      → OnePerPlace db.promotions
      → OnePerPlace last.promotions
  Steps-OnePerPlace unmoved u = u
  Steps-OnePerPlace (more {mid = m} earlier step) u = by_step step (Steps-OnePerPlace earlier u)
    where
      by_step :
          {last : PromotionDb}
          → Step m last
          → OnePerPlace m.promotions
          → OnePerPlace last.promotions
      by_step (schedule next_run next_step db_now next_id user r) v =
          schedule-OnePerPlace next_run next_step db_now next_id user r m v
      by_step (approve db_now user id extra) v = approve-OnePerPlace db_now user id extra m v
      by_step (start db_now next_run next_step workflow user q) v =
          start-OnePerPlace db_now next_run next_step workflow user q m v
      by_step (update db_now next_log run user payload) v =
          status-OnePerPlace db_now next_log run user payload m v
