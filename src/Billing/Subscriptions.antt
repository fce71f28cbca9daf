-- ===== src/Billing/Subscriptions.antt =====
-- The life of a subscription in `BillingService`, backend/src/billing/service.rs. `db_now` is the
-- database's `NOW()`. The updates return the first row that they changed, as `fetch_optional` does.
use mcp_host.Prelude.{
  ℕ, Option, none, some, List, [], ◌∷◌, ◌++◌, String, ◌&&◌, ◌==◌, str_eq, select, find, earliest,
  update_where, Result, ok, err,
}
use mcp_host.Billing.Models.{BillingPlan, OrganizationSubscription, BillingDb}
use mcp_host.Billing.Service.{latest_subscription}
use mcp_host.Billing.Usage.{BillingError, plan_not_found}

abbrev pub set_subscriptions : BillingDb → List OrganizationSubscription → BillingDb
set_subscriptions db rows = record db { subscriptions = rows }

-- UPDATE organization_subscriptions SET ... WHERE id = $1 RETURNING *
unfoldable pub update_subscription :
    ℕ
    → (OrganizationSubscription → OrganizationSubscription)
    → BillingDb
    → Option OrganizationSubscription × BillingDb
update_subscription id change db =
    let rows = update_where (λ s. s.id == id) change db.subscriptions in
    (find (λ s. s.id == id) rows, set_subscriptions db rows)

abbrev pub past_due_row : ℕ → OrganizationSubscription → OrganizationSubscription
past_due_row db_now s = record s { status = "past_due"; updated_at = db_now }

abbrev pub suspended_row : ℕ → OrganizationSubscription → OrganizationSubscription
suspended_row db_now s = record s {
  status = "suspended";
  current_period_end = some db_now;
  updated_at = db_now;
}

abbrev pub downgraded_row : ℕ → ℕ → OrganizationSubscription → OrganizationSubscription
downgraded_row db_now plan_id s = record s {
  plan_id = plan_id;
  status = "active";
  current_period_start = db_now;
  current_period_end = none;
  updated_at = db_now;
}

abbrev pub new_row : (fresh db_now : ℕ) → ℕ → ℕ → String → Option ℕ → OrganizationSubscription
new_row fresh db_now organization_id plan_id status trial_ends_at = record {
  id = fresh;
  organization_id = organization_id;
  plan_id = plan_id;
  status = status;
  trial_ends_at = trial_ends_at;
  current_period_start = db_now;
  current_period_end = none;
  canceled_at = none;
  created_at = db_now;
  updated_at = db_now;
}

-- DO UPDATE SET: the period of the row is kept.
abbrev pub upserted_row :
    ℕ → ℕ → String → Option ℕ → OrganizationSubscription → OrganizationSubscription
upserted_row db_now plan_id status trial_ends_at s = record s {
  status = status;
  trial_ends_at = trial_ends_at;
  plan_id = plan_id;
  updated_at = db_now;
}

unfoldable pub upsert_subscription :
    (fresh db_now : ℕ)
    → ℕ
    → ℕ
    → String
    → Option ℕ
    → BillingDb
    → Option OrganizationSubscription × BillingDb
upsert_subscription fresh db_now organization_id plan_id status trial_ends_at db =
    elim (latest_subscription db organization_id) [
      | none ↦
          let row = new_row fresh db_now organization_id plan_id status trial_ends_at in
          (some row, set_subscriptions db (db.subscriptions ++ row ∷ []))
      | some s ↦ update_subscription s.id (upserted_row db_now plan_id status trial_ends_at) db
    ]

unfoldable pub mark_subscription_overdue :
    (db_now : ℕ) → ℕ → BillingDb → Option OrganizationSubscription × BillingDb
mark_subscription_overdue db_now organization_id db =
    elim (latest_subscription db organization_id) [
      | none ↦ (none, db)
      | some s ↦ update_subscription s.id (past_due_row db_now) db
    ]

unfoldable pub suspend_subscription :
    (db_now : ℕ) → ℕ → BillingDb → Option OrganizationSubscription × BillingDb
suspend_subscription db_now organization_id db = elim (latest_subscription db organization_id) [
  | none ↦ (none, db)
  | some s ↦ update_subscription s.id (suspended_row db_now) db
]

-- SELECT * FROM billing_plans WHERE code = $1 AND active = TRUE ORDER BY created_at ASC LIMIT 1
unfoldable pub active_plan : List BillingPlan → String → Option BillingPlan
active_plan plans code =
    earliest (λ p. p.created_at) (select (λ p. str_eq p.code code && p.active) plans)

unfoldable pub downgrade_subscription :
    (db_now : ℕ)
    → ℕ
    → String
    → BillingDb
    → Result (Option OrganizationSubscription) BillingError × BillingDb
downgrade_subscription db_now organization_id plan_code db = elim (active_plan db.plans plan_code) [
  | none ↦ (err (plan_not_found plan_code), db)
  | some plan ↦ elim (latest_subscription db organization_id) [
    | none ↦ (ok none, db)
    | some s ↦
        let (row, db') = update_subscription s.id (downgraded_row db_now plan.id) db in
        (ok row, db')
  ]
]
