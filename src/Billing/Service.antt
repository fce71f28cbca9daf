-- ===== src/Billing/Service.antt =====
-- The queries of `BillingService`, backend/src/billing/service.rs, over the tables.
use mcp_host.Prelude.{
  ℕ, Bool, Option, none, some, List, [], ◌∷◌, String, ◌&&◌, ◌==◌, str_eq, if◌then◌else◌, select,
  find, latest,
}
use mcp_host.Billing.Models.{
  BillingPlan, PlanEntitlement, OrganizationSubscription, is_active, SubscriptionUsageWindow,
  BillingDb,
}

-- SELECT ... WHERE id = $1
unfoldable pub plan_by_id : List BillingPlan → ℕ → Option BillingPlan
plan_by_id plans id = find (λ p. p.id == id) plans

-- The rows of an organization, joined to their plans.
unfoldable pub joined :
    List BillingPlan → List OrganizationSubscription → List (OrganizationSubscription × BillingPlan)
joined plans [] = []
joined plans (s ∷ ss) = elim (plan_by_id plans s.plan_id) [
  | none ↦ joined plans ss
  | some p ↦ (s, p) ∷ joined plans ss
]

unfoldable pub of_organization : ℕ → List OrganizationSubscription → List OrganizationSubscription
of_organization organization_id = select (λ s. s.organization_id == organization_id)

abbrev pub if_active :
    ℕ
    → Option (OrganizationSubscription × BillingPlan)
    → Option (OrganizationSubscription × BillingPlan)
if_active now none = none
if_active now (some (s, p)) = if is_active s now then some (s, p) else none

unfoldable pub active_subscription :
    BillingDb → ℕ → ℕ → Option (OrganizationSubscription × BillingPlan)
active_subscription db organization_id now = if_active now (
    latest (λ r. r.0.updated_at)
      (joined db.plans (of_organization organization_id db.subscriptions)))

unfoldable pub latest_subscription : BillingDb → ℕ → Option OrganizationSubscription
latest_subscription db organization_id =
    latest (λ s. s.updated_at) (of_organization organization_id db.subscriptions)

unfoldable pub latest_subscription_by_id : BillingDb → ℕ → Option OrganizationSubscription
latest_subscription_by_id db id = find (λ s. s.id == id) db.subscriptions

unfoldable pub plan_entitlement : BillingDb → ℕ → String → Option PlanEntitlement
plan_entitlement db plan_id key =
    find (λ e. e.plan_id == plan_id && str_eq e.entitlement_key key) db.entitlements

unfoldable pub in_window : ℕ → String → ℕ × ℕ → SubscriptionUsageWindow → Bool
in_window subscription_id key (window_start, window_end) u =
    u.subscription_id == subscription_id
    && str_eq u.entitlement_key key
    && u.window_start == window_start
    && u.window_end == window_end

unfoldable pub usage_window : BillingDb → ℕ → String → ℕ × ℕ → Option SubscriptionUsageWindow
usage_window db subscription_id key window = find (in_window subscription_id key window) db.ledger
