-- ===== src/Promotions/Admission.antt =====
-- When backend/src/promotions.rs schedules a promotion.
use mcp_host.Prelude.{
  ℕ, ◌≡◌, refl, sym, ◌∙◌, Bool, true, false, not, ◌&&◌, Option, some, [], ◌∷◌, ◌++◌, String, ◌==◌,
  to_lowercase, find, any, find-none, In-any, In-appended, ==_refl, if◌then◌else◌, ◌⊎◌, inl, inr,
  Option-cases, Result-cases, Result, ok, err,
}
use mcp_host.Trust.Lifecycle.{TrustLifecycleState, lifecycle_str}
use mcp_host.Trust.Tables.{column_decode, ArtifactRun, RuntimeVmTrustRegistryState}
use mcp_host.Promotions.Train.{new, contains, previous_stage}
use mcp_host.Promotions.Posture.{PromotionTrack}
use mcp_host.Promotions.Verdicts.{
  acceptable, evaluate_promotion_posture-allowed, registry_lifecycle-vetoes,
}
use mcp_host.Promotions.Signals.{
  ArtifactPromotion, PromotionDb, artifact_row, trust_row, collect_promotion_signals,
}
use mcp_host.Error.{AppError}
use mcp_host.Governance.Runs.{set_promotions}
use mcp_host.Promotions.Schedule.{
  SchedulePromotionRequest, blocked_by_previous, exists_at, admit, promotion_row, load_promotion,
  schedule_promotion,
}

ladder :
    (c b x v : Bool) (e₁ e₂ e₃ e₄ : AppError) (t track : PromotionTrack)
    → (if not c
        then err e₁
        else if b
        then err e₂
        else if x
        then err e₃
        else if not v
        then err e₄
        else ok t)
      ≡ ok track
    → (track ≡ t) × (c ≡ true) × (b ≡ false) × (x ≡ false) × (v ≡ true)
ladder true false false true e₁ e₂ e₃ e₄ t track e = (cc, refl, refl, refl, refl)
ladder false b x v e₁ e₂ e₃ e₄ t track e = cc
ladder true true x v e₁ e₂ e₃ e₄ t track e = cc
ladder true false true v e₁ e₂ e₃ e₄ t track e = cc
ladder true false false false e₁ e₂ e₃ e₄ t track e = cc

module _ (tenths : ℕ → String) (user : ℕ) (r : SchedulePromotionRequest) (db : PromotionDb) where
  abbrev own_track : Option PromotionTrack
  own_track = find (λ t. (t.id == r.track_id) && (t.owner_id == user)) db.tracks

  -- What a scheduled promotion has behind it.
  pub record Admitted (track : PromotionTrack) : Type 0 where
    pub owned : own_track ≡ some track
    pub on_train : contains (new track.stages) (to_lowercase r.stage) ≡ true
    pub previous :
        blocked_by_previous db track.id
          (previous_stage (new track.stages) (to_lowercase r.stage))
          r.manifest_digest
        ≡ false
    pub free : exists_at db track.id (to_lowercase r.stage) r.manifest_digest ≡ false
    pub posture :
        acceptable (collect_promotion_signals db r.artifact_run_id r.manifest_digest) ≡ true

  admitted : (track : PromotionTrack) → admit tenths user r db ≡ ok track → Admitted track
  unfolding admit
  admitted track e = elim (Option-cases own_track) [
    | inl n ↦ cc (rw (n, admit) at e)
    | inr (t, s) ↦
        let (same, c, b, x, v) = ladder _ _ _ _ _ _ _ _ t track (rw (s, admit) at e) in
        rw same (record {
          owned = s;
          on_train = c;
          previous = b;
          free = x;
          posture = sym (evaluate_promotion_posture-allowed tenths t _).0 ∙ v;
        })
  ]

  module _ (next_run next_step db_now next_id : ℕ) where
    abbrev pub written : PromotionTrack → PromotionDb
    written track =
        set_promotions (db.promotions ++ promotion_row tenths db_now next_id user r db track ∷ [])
          db

    loaded :
        (track : PromotionTrack)
        → load_promotion (written track) next_id ≡ err (AppError.db (column_decode "status"))
    unfolding load_promotion
    loaded track = elim (Option-cases (find (λ p. p.id == next_id) (written track).promotions)) [
      | inr (p, f) ↦ rw (f, load_promotion) refl
      | inl n ↦
          let there : any (λ p. p.id == next_id) (written track).promotions ≡ true =
            In-any (λ p. p.id == next_id) (written track).promotions _
              (In-appended db.promotions (promotion_row tenths db_now next_id user r db track))
              (==_refl next_id) in
          let not_there = find-none (λ p. p.id == next_id) (written track).promotions n in cc
    ]

    abbrev scheduled_with : Result ArtifactPromotion AppError × PromotionDb
    scheduled_with = schedule_promotion tenths next_run next_step db_now next_id user r db

    -- A request to schedule a promotion either ends in an error and writes nothing; or the track is the
    -- caller's own, the stage is one of its stages, its previous stage, if it has one, is active for the
    -- same digest, no promotion of the digest stands at the stage, and no signal that is present is a bad
    -- one. Then the row is written and stays, and the call ends in the error of reading it back, before any
    -- workflow of the track is started.
    pub schedule_promotion-Admitted :
        ((e : AppError) × (scheduled_with ≡ (err e, db)))
        ⊎ ((track : PromotionTrack) × Admitted track
            × (scheduled_with ≡ (err (AppError.db (column_decode "status")), written track)))
    unfolding schedule_promotion
    schedule_promotion-Admitted = elim (Result-cases (admit tenths user r db)) [
      | inl (track, a) ↦
          inr (track, admitted track a, rw (a, schedule_promotion) (rw (loaded track) refl))
      | inr (e, a) ↦ inl (e, rw (a, schedule_promotion) refl)
    ]

    -- An artifact of a server with a VM in the trust registry is never scheduled for promotion: whichever
    -- lifecycle state the newest registry row has, the request ends in an error and writes nothing.
    pub schedule_promotion-registry_veto :
        (a : ArtifactRun) (t : RuntimeVmTrustRegistryState) (l : TrustLifecycleState)
        → artifact_row db.trust r.artifact_run_id r.manifest_digest ≡ some a
        → trust_row db.trust a.server_id ≡ some t
        → t.lifecycle_state ≡ lifecycle_str l
        → (e : AppError) × (scheduled_with ≡ (err e, db))
    unfolding collect_promotion_signals
    schedule_promotion-registry_veto a t l row has state = elim schedule_promotion-Admitted [
      | inl refused ↦ refused
      | inr (track, ad, _) ↦
          let sees : (collect_promotion_signals db r.artifact_run_id
                r.manifest_digest).trust_lifecycle_state
              ≡ some (lifecycle_str l) =
            rw (row, collect_promotion_signals) (rw has (rw state refl)) in
          let clash : false ≡ true =
            sym (registry_lifecycle-vetoes tenths track _ l sees)
            ∙ (evaluate_promotion_posture-allowed tenths track _).0
            ∙ ad.posture in
          cc
    ]
