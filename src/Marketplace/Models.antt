-- ===== src/Marketplace/Models.antt =====
-- backend/src/marketplace.rs: the rows of a provider's submissions, the requests, and the tables of
-- backend/migrations/0045.
use mcp_host.Prelude.{ℕ, Bool, Option, List, String, Value}
use mcp_host.Keys.Events.{KeyDb}

pub record ProviderMarketplaceSubmission : Type 0 where
  pub id : ℕ
  pub provider_id : ℕ
  pub submitted_by : Option ℕ
  pub tier : String
  pub manifest_uri : String
  pub artifact_digest : Option String
  pub release_notes : Option String
  pub posture_state : Value
  pub posture_vetoed : Bool
  pub posture_notes : List String
  pub status : String
  pub metadata : Value
  pub created_at : ℕ
  pub updated_at : ℕ

pub record ProviderMarketplaceEvaluation : Type 0 where
  pub id : ℕ
  pub submission_id : ℕ
  pub evaluation_type : String
  pub status : String
  pub started_at : ℕ
  pub completed_at : Option ℕ
  pub evaluator_ref : Option String
  pub result : Value
  pub posture_state : Value
  pub posture_vetoed : Bool
  pub posture_notes : List String
  pub created_at : ℕ
  pub updated_at : ℕ

pub record ProviderMarketplacePromotion : Type 0 where
  pub id : ℕ
  pub evaluation_id : ℕ
  pub gate : String
  pub status : String
  pub opened_at : ℕ
  pub closed_at : Option ℕ
  pub notes : List String
  pub created_at : ℕ
  pub updated_at : ℕ

-- A row of provider_marketplace_events. The provider is only part of the broadcast event.
pub record MarketplaceEvent : Type 0 where
  pub id : ℕ
  pub submission_id : Option ℕ
  pub evaluation_id : Option ℕ
  pub promotion_id : Option ℕ
  pub actor_ref : Option String
  pub event_type : String
  pub payload : Value
  pub occurred_at : ℕ

pub record ProviderMarketplaceSubmissionRequest : Type 0 where
  pub tier : String
  pub manifest_uri : String
  pub artifact_digest : Option String
  pub release_notes : Option String
  pub metadata : Option Value

pub record ProviderMarketplaceEvaluationRequest : Type 0 where
  pub evaluation_type : String
  pub status : Option String
  pub evaluator_ref : Option String
  pub result : Option Value

pub record ProviderMarketplaceEvaluationTransition : Type 0 where
  pub status : String
  pub completed_at : Option ℕ
  pub result : Option Value

pub record ProviderMarketplacePromotionRequest : Type 0 where
  pub gate : String
  pub status : Option String
  pub notes : Option (List String)

pub record ProviderMarketplacePromotionTransition : Type 0 where
  pub status : String
  pub notes : Option (List String)
  pub closed_at : Option ℕ

pub record ProviderPostureSnapshot : Type 0 where
  pub state : Value
  pub vetoed : Bool
  pub notes : List String

-- The tables, with those of the providers' keys.
pub record MarketDb : Type 0 where
  pub submissions : List ProviderMarketplaceSubmission
  pub evaluations : List ProviderMarketplaceEvaluation
  pub promotions : List ProviderMarketplacePromotion
  pub events : List MarketplaceEvent
  pub keys : KeyDb

pub record AuthUser : Type 0 where
  pub user_id : ℕ
  pub role : String
