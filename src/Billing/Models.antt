-- ===== src/Billing/Models.antt =====
-- backend/src/billing/models.rs, and the four tables of backend/migrations/0044. Identifiers (UUIDs
-- and organization numbers) are only compared, and stand as numbers.
use mcp_host.Prelude.{
  ℕ, Bool, true, false, Option, none, some, List, String, not, ◌&&◌, ltb, str_eq, if◌then◌else◌,
}
use mcp_host.Prelude.{ℤ, Value}

pub record BillingPlan : Type 0 where
  pub id : ℕ
  pub code : String
  pub name : String
  pub description : Option String
  pub billing_period : String
  pub currency : String
  pub amount_cents : ℤ
  pub active : Bool
  pub created_at : ℕ
  pub updated_at : ℕ

pub record PlanEntitlement : Type 0 where
  pub id : ℕ
  pub plan_id : ℕ
  pub entitlement_key : String
  pub limit_quantity : Option ℤ
  pub reset_interval : String
  pub metadata : Value

pub record OrganizationSubscription : Type 0 where
  pub id : ℕ
  pub organization_id : ℕ
  pub plan_id : ℕ
  pub status : String
  pub trial_ends_at : Option ℕ
  pub current_period_start : ℕ
  pub current_period_end : Option ℕ
  pub canceled_at : Option ℕ
  pub created_at : ℕ
  pub updated_at : ℕ

unfoldable pub is_active : OrganizationSubscription → ℕ → Bool
is_active s now =
    if not (str_eq s.status "active") && not (str_eq s.status "trialing")
    then false
    else elim s.current_period_end [ none ↦ true | some end ↦ if ltb end now then false else true ]

pub record SubscriptionUsageWindow : Type 0 where
  pub id : ℕ
  pub subscription_id : ℕ
  pub entitlement_key : String
  pub window_start : ℕ
  pub window_end : ℕ
  pub used_quantity : ℤ
  pub updated_at : ℕ

pub record BillingQuotaOutcome : Type 0 where
  pub allowed : Bool
  pub entitlement_key : String
  pub limit_quantity : Option ℤ
  pub used_quantity : ℤ
  pub remaining_quantity : Option ℤ
  pub notes : List String

-- adapters.rs, `UsageReconciliationRecord`
pub record UsageReconciliationRecord : Type 0 where
  pub subscription_id : ℕ
  pub entitlement_key : String
  pub window_start : ℕ
  pub window_end : ℕ
  pub quantity : ℤ

-- The tables, each a list of rows in insertion order.
pub record BillingDb : Type 0 where
  pub plans : List BillingPlan
  pub entitlements : List PlanEntitlement
  pub subscriptions : List OrganizationSubscription
  pub ledger : List SubscriptionUsageWindow
