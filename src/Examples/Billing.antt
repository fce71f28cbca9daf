-- ===== src/Examples/Billing.antt =====
-- The theorems on backend/src/billing at concrete tables, over the calendar of thirty-day months.
use mcp_host.Prelude.{
  ℕ, ◌+◌, ◌*◌, ◌≤◌, ◌<◌, ◌≡◌, refl, true, false, Option, none, some, List, [], ◌∷◌, String, arith,
  ◌⊎◌, inl, if◌then◌else◌, ℤ, pos, ◌+ℤ◌, i64_max, checked_add_i64, add_i64, null, not, ltb_ℤ,
}
use mathlib.Core.Option
use mcp_host.Chrono.{day, plain, plain-IsCalendar}
use mcp_host.Billing.Models.{
  BillingPlan, PlanEntitlement, OrganizationSubscription, SubscriptionUsageWindow, BillingDb,
  is_active,
}
use mcp_host.Billing.Windows.{window_bounds, window_bounds_hold, window_bounds_stable}
use mcp_host.Billing.Service.{
  active_subscription, plan_entitlement, usage_window, plan_by_id, in_window, joined,
  of_organization,
}
use mcp_host.Billing.Usage.{record_usage, decide, enforce_entitlement, enforce_quota}
use mcp_host.Billing.Subscriptions.{past_due_row, upsert_subscription, active_plan}
use mcp_host.Billing.Scheduler.{should_mark_past_due, process_tick, compute_period_end}
use mcp_host.Billing.Rows.{row_of, Keyed}
use mcp_host.Billing.Steps.{ended_row}
use mcp_host.Billing.Ticks.{tick_row, process_tick-row}
use mcp_host.Billing.Renewal.{ticks, renewal_grace, lapse_ends, resubscribe_stays_inactive}
use mcp_host.Billing.Ledger.{window_used, same_window, record_usage-window_used}
use mcp_host.Billing.Overflow.{decide_exact, decide_overflow}
use mcp_host.Billing.Lookup.{UniqueIds}
use mcp_host.Billing.Quota.{WithinQuota}
use mcp_host.Billing.Requests.{
  QuotaRequest, Granted, serve, enforce_quota-Granted, serve-WithinQuota,
}

abbrev plan : ℕ → String → BillingPlan
plan id code = record {
  id = id;
  code = code;
  name = code;
  description = none;
  billing_period = "weekly";
  currency = "EUR";
  amount_cents = pos 900;
  active = true;
  created_at = id;
  updated_at = id;
}

abbrev subscription : ℕ → ℕ → Option ℕ → OrganizationSubscription
subscription id organization_id end = record {
  id = id;
  organization_id = organization_id;
  plan_id = 1;
  status = "active";
  trial_ends_at = none;
  current_period_start = 20 * day;
  current_period_end = end;
  canceled_at = none;
  created_at = 20 * day;
  updated_at = 20 * day;
}

abbrev calls : PlanEntitlement
calls = record {
  id = 5;
  plan_id = 1;
  entitlement_key = "calls";
  limit_quantity = some (pos 10);
  reset_interval = "daily";
  metadata = null;
}

-- Two organizations on a weekly plan: the first one's period ends on day 27, the second's is open.
abbrev tables : BillingDb
tables = record {
  plans = plan 1 "pro" ∷ plan 2 "free" ∷ [];
  entitlements = calls ∷ [];
  subscriptions = subscription 11 7 (some (27 * day)) ∷ subscription 12 8 none ∷ [];
  ledger = [];
}

tables-Keyed : Keyed tables.subscriptions
tables-Keyed = (((λ e. omega arith, λ e. omega arith), tt), (tt, tt))

window_bounds_hold_example :
    ((window_bounds plain (20 * day) "weekly").0 ≤ 20 * day)
    × (20 * day < (window_bounds plain (20 * day) "weekly").1)
window_bounds_hold_example =
    window_bounds_hold plain plain-IsCalendar (20 * day) "weekly" (omega arith)

window_bounds_stable_example :
    window_bounds plain (20 * day + 5) "daily" ≡ window_bounds plain (20 * day) "daily"
unfolding window_bounds
window_bounds_stable_example =
    window_bounds_stable plain plain-IsCalendar (20 * day) (20 * day + 5) "daily" (omega arith)
      (omega arith) (omega arith)

process_tick-row_example :
    (row_of (process_tick plain (28 * day) (28 * day) 3 (some "free") tables) 7
      ≡ Option.map
          (tick_row plain (28 * day) (28 * day) 3 (some "free") tables.plans)
          (row_of tables 7))
    × Keyed (process_tick plain (28 * day) (28 * day) 3 (some "free") tables).subscriptions
    × ((process_tick plain (28 * day) (28 * day) 3 (some "free") tables).plans ≡ tables.plans)
process_tick-row_example =
    process_tick-row plain (28 * day) (28 * day) 3 (some "free") 7 tables tables-Keyed

renewal_grace_example :
    (row_of (process_tick plain (28 * day) (28 * day) 3 (some "free") tables) 7
      ≡ some (subscription 11 7 (some (27 * day))))
    ⊎ (row_of (process_tick plain (28 * day) (28 * day) 3 (some "free") tables) 7
        ≡ some (past_due_row (28 * day) (subscription 11 7 (some (27 * day)))))
renewal_grace_example =
    renewal_grace plain (28 * day) (28 * day) 3 (some "free") 7 tables
      (subscription 11 7 (some (27 * day))) tables-Keyed refl (inl refl) (omega arith)

lapse_ends_example :
    row_of
      (ticks plain 3
        (some "free")
        ((28 * day, 28 * day)
          ∷ (29 * day, 29 * day)
          ∷ (30 * day, 30 * day)
          ∷ (31 * day, 31 * day)
          ∷ [])
        tables)
      7
    ≡ some (
        ended_row
          (31 * day)
          (some "free")
          tables.plans
          (plan 1 "pro")
          (past_due_row (28 * day) (subscription 11 7 (some (27 * day)))))
unfolding plan_by_id should_mark_past_due compute_period_end
lapse_ends_example =
    lapse_ends plain 3 (some "free") (28 * day) (28 * day) (31 * day) (31 * day) 7
      ((29 * day, 29 * day) ∷ (30 * day, 30 * day) ∷ []) tables
      (subscription 11 7 (some (27 * day))) (plan 1 "pro") tables-Keyed refl (inl refl) refl refl
      (omega arith) (omega arith, (omega arith, tt)) (omega arith)

-- The ended row is that of the fallback plan.
lapse_ends_test :
    (ended_row
      (31 * day)
      (some "free")
      tables.plans
      (plan 1 "pro")
      (past_due_row (28 * day) (subscription 11 7 (some (27 * day))))).plan_id
    ≡ 2
unfolding ended_row active_plan
lapse_ends_test = refl

resubscribe_stays_inactive_example :
    (row : OrganizationSubscription) × (row_of
        (upsert_subscription 90 (40 * day) 7 1 "active" none tables).1
        7
      ≡ some row)
    × (row.status ≡ "active")
    × (is_active row (40 * day) ≡ false)
resubscribe_stays_inactive_example =
    resubscribe_stays_inactive 90 (40 * day) 7 1 (40 * day) (27 * day) none tables
      (subscription 11 7 (some (27 * day))) tables-Keyed refl refl (omega arith)

abbrev today : ℕ × ℕ
today = (20 * day, 21 * day)

abbrev used : ℤ → SubscriptionUsageWindow
used n = record {
  id = 90;
  subscription_id = 11;
  entitlement_key = "calls";
  window_start = 20 * day;
  window_end = 21 * day;
  used_quantity = n;
  updated_at = 20 * day;
}

abbrev full : BillingDb
full = record tables { ledger = used i64_max ∷ [] }

record_usage-window_used_example :
    window_used (record_usage 90 (20 * day) 11 "calls" today (pos 4) tables).1 11 "calls" today ≡ (
      if same_window 11 "calls" today 11 "calls" today
      then window_used tables 11 "calls" today +ℤ pos 4
      else window_used tables 11 "calls" today)
unfolding record_usage usage_window
record_usage-window_used_example =
    record_usage-window_used 90 (20 * day) 11 "calls" today (pos 4) tables 11 "calls" today
      (used (pos 4)) refl

enforce_quota-Granted_example :
    ((enforce_quota plain (20 * day) 90 (20 * day) 7 "calls" (pos 4) true tables).1 ≡ tables)
    ⊎ ((s : OrganizationSubscription) × (p : BillingPlan) × (e : PlanEntitlement)
        × (active_subscription tables 7 (20 * day) ≡ some (s, p))
        × (plan_entitlement tables s.plan_id "calls" ≡ some e)
        × Granted s.id "calls"
            (window_bounds plain (20 * day) e.reset_interval)
            (pos 4)
            tables
            (enforce_quota plain (20 * day) 90 (20 * day) 7 "calls" (pos 4) true tables))
enforce_quota-Granted_example =
    enforce_quota-Granted plain (20 * day) 90 (20 * day) 7 "calls" (pos 4) true tables

tables-UniqueIds : UniqueIds tables.subscriptions
tables-UniqueIds = ((λ e. omega arith, tt), (tt, tt))

tables-WithinQuota : WithinQuota tables
unfolding window_used usage_window
tables-WithinQuota id key window s e limit hs he hl hp = hp

abbrev request : ℕ → ℕ → ℤ → QuotaRequest
request fresh organization_id n = record {
  now = 20 * day;
  fresh = fresh;
  db_now = 20 * day;
  organization_id = organization_id;
  entitlement_key = "calls";
  requested_quantity = n;
  record_usage = true;
}

abbrev requests : List QuotaRequest
requests = request 90 7 (pos 4) ∷ request 91 8 (pos 6) ∷ request 92 7 (pos 7) ∷ []

serve-WithinQuota_example : WithinQuota (serve plain requests tables)
serve-WithinQuota_example =
    serve-WithinQuota plain requests tables
      ((omega arith, omega arith), ((omega arith, omega arith), ((omega arith, omega arith), tt)))
      tables-UniqueIds tables-WithinQuota

-- Of three requests over a limit of ten the third, which would pass it, is refused.
serve_test : window_used (serve plain requests tables) 11 "calls" today ≡ pos 4
unfolding serve enforce_quota active_subscription joined of_organization plan_by_id is_active
    window_used usage_window in_window record_usage plan_entitlement window_bounds
    enforce_entitlement decide add_i64 checked_add_i64 ◌+ℤ◌
serve_test = refl

decide_exact_example :
    (decide "calls" (some (pos 10)) (pos 4) (pos 7)).allowed ≡ not (ltb_ℤ (pos 10) (pos 4 +ℤ pos 7))
unfolding ◌+ℤ◌
decide_exact_example = decide_exact "calls" (pos 10) (pos 4) (pos 7) (omega arith, omega arith)

decide_overflow_example : (decide "calls" (some (pos 10)) (pos 4) i64_max).allowed ≡ true
unfolding ◌+ℤ◌
decide_overflow_example =
    decide_overflow "calls" (pos 10) (pos 4) i64_max (omega arith, omega arith)
      (omega arith, omega arith) (omega arith) refl
