-- ===== src/Governance/Ready.antt =====
-- `ensure_promotion_ready` of backend/src/governance/engine.rs: the gate that a placement asks.
use mcp_host.Prelude.{
  ℕ, Bool, false, Option, none, some, List, [], ◌∷◌, ◌++◌, String, ◌==◌, str_eq, ltb, ◌&&◌, ◌||◌,
  if◌then◌else◌, format, to_lowercase, select, order_by, any, find,
}
use mcp_host.Trust.Outcome.{first}
use mcp_host.Promotions.Posture.{PromotionTrack}
use mcp_host.Promotions.Signals.{
  PromotionStatus, scheduled, in_progress, approved, active, rolled_back, ArtifactPromotion,
  PromotionDb,
}
use mcp_host.Governance.Runs.{is_active}
use mcp_host.Governance.Status.{status_str}

pub record GovernanceGateEvaluation : Type 0 where
  pub satisfied : Bool
  pub run_id : Option ℕ
  pub notes : List String
  pub promotion_track_id : Option ℕ
  pub promotion_track_name : Option String
  pub promotion_stage : Option String
  pub promotion_status : Option String

-- An evaluation without a promotion.
abbrev unready : String → GovernanceGateEvaluation
unready reason = record {
  satisfied = false;
  run_id = none;
  notes = reason ∷ [];
  promotion_track_id = none;
  promotion_track_name = none;
  promotion_stage = none;
  promotion_status = none;
}

abbrev pub rank : PromotionStatus → ℕ
rank active = 0
rank approved = 1
rank in_progress = 2
rank scheduled = 3
rank rolled_back = 4

-- ORDER BY CASE ap.status ... END, ap.updated_at DESC
abbrev pub ready_before : ArtifactPromotion → ArtifactPromotion → Bool
ready_before p q =
    ltb (rank p.status) (rank q.status)
    || (rank p.status == rank q.status) && ltb q.updated_at p.updated_at

-- JOIN promotion_tracks t ON t.id = ap.promotion_track_id WHERE t.tier = $2
abbrev pub on_tier : PromotionDb → String → ArtifactPromotion → Bool
on_tier db tier p = any (λ t. (t.id == p.promotion_track_id) && str_eq t.tier tier) db.tracks

abbrev pub of_digest : PromotionDb → String → String → ArtifactPromotion → Bool
of_digest db digest tier p = str_eq p.manifest_digest digest && on_tier db tier p

unfoldable pub ready_row : PromotionDb → String → String → Option ArtifactPromotion
ready_row db digest tier =
    first (order_by ready_before (select (of_digest db digest tier) db.promotions))

abbrev track_name : Option PromotionTrack → String
track_name none = ""
track_name (some t) = t.name

-- `eq_ignore_ascii_case`
abbrev pub eq_ignore_ascii_case : String → String → Bool
eq_ignore_ascii_case s t = str_eq (to_lowercase s) (to_lowercase t)

abbrev mismatch : Bool → String → String → List String
mismatch matches stage tier =
    if matches then [] else format ("promotion:stage-mismatch:" ∷ stage ∷ ":" ∷ tier ∷ []) ∷ []

abbrev pub evaluate_row : PromotionDb → String → ArtifactPromotion → GovernanceGateEvaluation
evaluate_row db tier p =
    let name = track_name (find (λ t. t.id == p.promotion_track_id) db.tracks) in
    let stage_matches = eq_ignore_ascii_case p.stage tier in
    record {
      satisfied = stage_matches && is_active p.status;
      run_id = p.workflow_run_id;
      notes =
          format ("promotion:status:" ∷ name ∷ ":" ∷ p.stage ∷ ":" ∷ status_str p.status ∷ [])
            ∷ mismatch stage_matches p.stage tier
          ++ p.notes;
      promotion_track_id = some p.promotion_track_id;
      promotion_track_name = some name;
      promotion_stage = some p.stage;
      promotion_status = some (status_str p.status);
    }

unfoldable pub ensure_promotion_ready :
    Option String → Option String → PromotionDb → GovernanceGateEvaluation
ensure_promotion_ready none tier db = unready "governance:missing-manifest"
ensure_promotion_ready (some digest) none db = unready "governance:missing-tier"
ensure_promotion_ready (some digest) (some tier) db = elim (ready_row db digest tier) [
  | none ↦ unready (format ("promotion:missing-track:" ∷ tier ∷ []))
  | some p ↦ evaluate_row db tier p
]
