-- ===== src/Promotions/Schedule.antt =====
-- `schedule_promotion` and `approve_promotion` of backend/src/promotions.rs. `db_now` is the database's
-- `NOW()`, and `next_id` the id of the row that an insert makes.
use mcp_host.Prelude.{
  ℕ, Bool, false, not, Option, none, some, List, [], ◌∷◌, ◌++◌, String, string, object, ◌==◌, ◌&&◌,
  if◌then◌else◌, format, show_nat, to_lowercase, find, any, update_where, Result, ok, err,
}
use mcp_host.Trust.Tables.{row_not_found, column_decode}
use mcp_host.Error.{AppError, not_found, bad_request, json_bad_request, message}
use mcp_host.Governance.Models.{StartWorkflowRunRequest, GovernanceRunDetail}
use mcp_host.Governance.Runs.{
  at_place, is_active, set_promotions, GovernanceError, error_str, start_workflow_run,
}
use mcp_host.Promotions.Train.{new, contains, previous_stage}
use mcp_host.Promotions.Posture.{
  PromotionTrack, PromotionVerdict, insert, evaluate_promotion_posture, build_verdict_payload,
}
use mcp_host.Promotions.Signals.{
  scheduled, in_progress, approved, ArtifactPromotion, PromotionDb, collect_promotion_signals,
}

pub record SchedulePromotionRequest : Type 0 where
  pub track_id : ℕ
  pub manifest_digest : String
  pub artifact_run_id : Option ℕ
  pub stage : String
  pub notes : List String

unfoldable pub previous_active : PromotionDb → ℕ → String → String → Bool
previous_active db track stage digest =
    any (λ p. at_place track stage digest p && is_active p.status) db.promotions

unfoldable pub exists_at : PromotionDb → ℕ → String → String → Bool
exists_at db track stage digest = any (at_place track stage digest) db.promotions

abbrev pub update_promotion :
    ℕ → (ArtifactPromotion → ArtifactPromotion) → PromotionDb → PromotionDb
update_promotion id change db =
    set_promotions (update_where (λ p. p.id == id) change db.promotions) db

-- `load_promotion`: the column `status` has the enum type promotion_status (migration 0025) and the field is a
-- String, so sqlx refuses every row that there is.
unfoldable pub load_promotion : PromotionDb → ℕ → Result ArtifactPromotion AppError
load_promotion db id = elim (find (λ p. p.id == id) db.promotions) [
  | none ↦ err (AppError.db row_not_found)
  | some p ↦ err (AppError.db (column_decode "status"))
]

-- What stops the request before a row is written, in the order of the tests.
abbrev pub blocked_by_previous : PromotionDb → ℕ → Option String → String → Bool
blocked_by_previous db track none digest = false
blocked_by_previous db track (some previous) digest = not (previous_active db track previous digest)

abbrev pub previous_text : Option String → String
previous_text none = ""
previous_text (some s) = s

-- The body up to the insert: the track with the verdict, or the error.
module _ (tenths : ℕ → String) where
  abbrev pub verdict_of : PromotionDb → PromotionTrack → SchedulePromotionRequest → PromotionVerdict
  verdict_of db track r =
      evaluate_promotion_posture tenths track
        (collect_promotion_signals db r.artifact_run_id r.manifest_digest)

  unfoldable pub admit : ℕ → SchedulePromotionRequest → PromotionDb → Result PromotionTrack AppError
  admit user r db = elim (find (λ t. (t.id == r.track_id) && (t.owner_id == user)) db.tracks) [
    | none ↦ err not_found
    | some track ↦
        let stage = to_lowercase r.stage in
        let train = new track.stages in
        let previous = previous_stage train stage in
        let verdict = verdict_of db track r in
        if not (contains train stage)
        then err (
            bad_request
              (format ("stage `" ∷ stage ∷ "` is not part of track `" ∷ track.name ∷ "`" ∷ [])))
        else if blocked_by_previous db track.id previous r.manifest_digest
        then err (
            bad_request (
              format (
                "previous stage `"
                ∷ previous_text previous
                ∷ "` must be active before promoting to `"
                ∷ stage
                ∷ "`"
                ∷ [])))
        else if exists_at db track.id stage r.manifest_digest
        then err (
            bad_request (
              format (
                "promotion already exists for stage `" ∷ stage ∷ "` and digest `"
                ∷ r.manifest_digest ∷ "`" ∷ [])))
        else if not verdict.allowed
        then err (
            json_bad_request (
              object (
                insert "error" (string "promotion_veto")
                  (build_verdict_payload track stage verdict))))
        else ok track
  ]

  abbrev pub promotion_row :
      (db_now next_id : ℕ)
      → ℕ
      → SchedulePromotionRequest
      → PromotionDb
      → PromotionTrack
      → ArtifactPromotion
  promotion_row db_now next_id user r db track =
      let stage = to_lowercase r.stage in
      let verdict = verdict_of db track r in
      record {
        id = next_id;
        promotion_track_id = track.id;
        manifest_digest = r.manifest_digest;
        artifact_run_id = r.artifact_run_id;
        stage = stage;
        status = scheduled;
        scheduled_by = some user;
        approved_by = none;
        workflow_run_id = none;
        notes = r.notes ++ verdict.posture_notes;
        posture_verdict = some (object (build_verdict_payload track stage verdict));
        approved_at = none;
        activated_at = none;
        updated_at = db_now;
      }

  -- `next_run` and `next_step` are the numbers of the next workflow run and of the next step run.
  module _ (next_run next_step : ℕ) where
    abbrev pub workflow_request : ArtifactPromotion → PromotionTrack → StartWorkflowRunRequest
    workflow_request p track = record {
      target_manifest_digest = some p.manifest_digest;
      target_artifact_run_id = p.artifact_run_id;
      notes =
          some (p.notes ++ format ("promotion:scheduled:" ∷ track.name ∷ ":" ∷ p.stage ∷ []) ∷ []);
      promotion_track_id = some track.id;
      promotion_stage = some p.stage;
    }

    abbrev pub after_start :
        (db_now : ℕ)
        → ℕ
        → Result GovernanceRunDetail GovernanceError × PromotionDb
        → Result ArtifactPromotion AppError × PromotionDb
    after_start db_now id (ok run, db) =
        let db' =
          update_promotion id
            (λ p. record p {
              workflow_run_id = some run.id;
              status = in_progress;
              updated_at = db_now;
              notes = p.notes ++ format ("governance:run-started:" ∷ show_nat run.id ∷ []) ∷ [];
            })
            db in
        (load_promotion db' id, db')
    after_start db_now id (err e, db) = (
      err (message "failed to start governance workflow"),
      update_promotion id
          (λ p. record p {
            notes = p.notes ++ format ("governance:error:" ∷ error_str e ∷ []) ∷ [];
            updated_at = db_now;
          })
          db,
    )

    -- The workflow of the track, where it has one.
    abbrev pub start_workflow :
        (db_now : ℕ)
        → ℕ
        → PromotionTrack
        → ArtifactPromotion
        → PromotionDb
        → Result ArtifactPromotion AppError × PromotionDb
    start_workflow db_now user track p db = elim track.workflow_id [
      | none ↦ (ok p, db)
      | some workflow ↦
          after_start db_now p.id (
            start_workflow_run db_now next_run next_step workflow user (workflow_request p track)
              db)
    ]

    -- After the insert: the row is loaded, and the workflow started on what was loaded.
    abbrev pub after_load :
        (db_now : ℕ)
        → ℕ
        → PromotionTrack
        → Result ArtifactPromotion AppError
        → PromotionDb
        → Result ArtifactPromotion AppError × PromotionDb
    after_load db_now user track (err e) db = (err e, db)
    after_load db_now user track (ok p) db = start_workflow db_now user track p db

    unfoldable pub schedule_promotion :
        (db_now next_id : ℕ)
        → ℕ
        → SchedulePromotionRequest
        → PromotionDb
        → Result ArtifactPromotion AppError × PromotionDb
    schedule_promotion db_now next_id user r db = elim (admit user r db) [
      | err e ↦ (err e, db)
      | ok track ↦
          let row = promotion_row db_now next_id user r db track in
          let written = set_promotions (db.promotions ++ row ∷ []) db in
          after_load db_now user track (load_promotion written next_id) written
    ]

unfoldable pub approve_promotion :
    (db_now : ℕ)
    → ℕ
    → ℕ
    → Option String
    → PromotionDb
    → Result ArtifactPromotion AppError × PromotionDb
approve_promotion db_now user id extra db =
    if any (λ p. p.id == id) db.promotions
    then (let written =
          update_promotion id
            (λ p. record p {
              status = approved;
              approved_by = some user;
              approved_at = some db_now;
              updated_at = db_now;
              notes = p.notes ++ approval_note extra ∷ [];
            })
            db in
        (load_promotion written id, written))
    else (err not_found, db)
  where
    approval_note : Option String → String
    approval_note none = format ("promotion:approved:user:" ∷ show_nat user ∷ [])
    approval_note (some s) = format ("promotion:approved:user:" ∷ show_nat user ∷ ":" ∷ s ∷ [])
