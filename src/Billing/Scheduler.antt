-- ===== src/Billing/Scheduler.antt =====
-- backend/src/billing/scheduler.rs: one tick of the renewal automation. `now` is the tick's instant,
-- `db_now` the database's `NOW()` during the tick; log lines are left out.
use mcp_host.Prelude.{
  ℕ, ◌+◌, ◌*◌, Bool, false, Option, none, some, List, [], ◌∷◌, String, not, ◌||◌, ◌&&◌, ltb, str_eq,
  if◌then◌else◌, Result, ok, err, select,
}
use mcp_host.Chrono.{Calendar, day}
use mcp_host.Billing.Models.{BillingPlan, OrganizationSubscription, BillingDb}
use mcp_host.Billing.Service.{joined}
use mcp_host.Billing.Usage.{BillingError}
use mcp_host.Billing.Subscriptions.{
  mark_subscription_overdue, suspend_subscription, downgrade_subscription,
}

abbrev or_start : ℕ → Option ℕ → ℕ
or_start start none = start
or_start start (some end) = end

module _ (cal : Calendar) where
  open cal use {checked_add_signed, checked_add_months}

  unfoldable pub compute_period_end : ℕ → Option ℕ → String → ℕ
  compute_period_end start (some end) billing_period = end
  compute_period_end start none billing_period = or_start start (
      if str_eq billing_period "daily"
      then checked_add_signed start day
      else if str_eq billing_period "weekly"
      then checked_add_signed start (7 * day)
      else if str_eq billing_period "quarterly"
      then checked_add_months start 3
      else if str_eq billing_period "annual" || str_eq billing_period "yearly"
      then checked_add_months start 12
      else checked_add_months start 1)

-- SELECT ... WHERE s.status IN ('trialing', 'active'), and = 'past_due', joined to the plans
unfoldable pub renewal_candidates : BillingDb → List (OrganizationSubscription × BillingPlan)
renewal_candidates db =
    joined db.plans
      (select (λ s. str_eq s.status "trialing" || str_eq s.status "active") db.subscriptions)

unfoldable pub past_due_accounts : BillingDb → List (OrganizationSubscription × BillingPlan)
past_due_accounts db = joined db.plans (select (λ s. str_eq s.status "past_due") db.subscriptions)

abbrev pub before : Option ℕ → ℕ → Bool
before none now = false
before (some end) now = ltb end now

module _ (cal : Calendar) where
  -- The two tests that set `should_mark_past_due`.
  unfoldable pub should_mark_past_due : ℕ → OrganizationSubscription × BillingPlan → Bool
  should_mark_past_due now (s, p) =
      str_eq s.status "trialing" && before s.trial_ends_at now
      || ltb (compute_period_end cal s.current_period_start s.current_period_end p.billing_period)
          now

  unfoldable pub renew_all :
      (now db_now : ℕ) → List (OrganizationSubscription × BillingPlan) → BillingDb → BillingDb
  renew_all now db_now [] db = db
  renew_all now db_now (r ∷ rs) db = renew_all now db_now rs (
      if should_mark_past_due now r
      then (mark_subscription_overdue db_now r.0.organization_id db).1
      else db)

abbrev pub suspend : (db_now : ℕ) → ℕ → BillingDb → BillingDb
suspend db_now organization_id db = (suspend_subscription db_now organization_id db).1

-- The `match` on the result of the downgrade: only a row that was changed ends the iteration.
abbrev pub or_suspend :
    (db_now : ℕ) → ℕ → Result (Option OrganizationSubscription) BillingError × BillingDb → BillingDb
or_suspend db_now organization_id (ok (some s), db) = db
or_suspend db_now organization_id (ok none, db) = suspend db_now organization_id db
or_suspend db_now organization_id (err e, db) = suspend db_now organization_id db

-- The fallback plan if one is configured and is not the plan already; suspension otherwise.
unfoldable pub end_grace :
    (db_now : ℕ) → Option String → OrganizationSubscription × BillingPlan → BillingDb → BillingDb
end_grace db_now none (s, p) db = suspend db_now s.organization_id db
end_grace db_now (some code) (s, p) db =
    if not (str_eq p.code code)
    then or_suspend db_now s.organization_id
        (downgrade_subscription db_now s.organization_id code db)
    else suspend db_now s.organization_id db

unfoldable pub settle_past_due :
    (now db_now grace_days : ℕ)
    → Option String
    → OrganizationSubscription × BillingPlan
    → BillingDb
    → BillingDb
settle_past_due now db_now grace_days fallback (s, p) db =
    if ltb now (s.updated_at + grace_days * day) then db else end_grace db_now fallback (s, p) db

unfoldable pub settle_all :
    (now db_now grace_days : ℕ)
    → Option String
    → List (OrganizationSubscription × BillingPlan)
    → BillingDb
    → BillingDb
settle_all now db_now grace_days fallback [] db = db
settle_all now db_now grace_days fallback (r ∷ rs) db =
    settle_all now db_now grace_days fallback rs
      (settle_past_due now db_now grace_days fallback r db)

module _ (cal : Calendar) where
  unfoldable pub process_tick : (now db_now grace_days : ℕ) → Option String → BillingDb → BillingDb
  process_tick now db_now grace_days fallback db =
      let renewed = renew_all cal now db_now (renewal_candidates db) db in
      settle_all now db_now grace_days fallback (past_due_accounts renewed) renewed
