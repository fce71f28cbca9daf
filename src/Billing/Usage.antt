-- ===== src/Billing/Usage.antt =====
-- The usage ledger of `BillingService`, backend/src/billing/service.rs: quotas and settlement. Each
-- method takes the tables and returns its result with the tables after it. `now` is `Utc::now()`,
-- `db_now` the database's `NOW()`, and `fresh` the `Uuid::new_v4()` of the call. A statement fails
-- only where it is said so.
use mcp_host.Prelude.{
  ℕ, Bool, true, false, Option, none, some, List, [], ◌∷◌, ◌++◌, String, ◌&&◌, ◌==◌, if◌then◌else◌,
  format, show_int, update_where, Result, ok, err,
}
use mcp_host.Prelude.{ℤ, pos, ltb_ℤ, add_i64, sub_i64, saturating_sub_i64, checked_add_i64}
use mcp_host.Chrono.{Calendar}
use mcp_host.Billing.Models.{
  SubscriptionUsageWindow, BillingQuotaOutcome, UsageReconciliationRecord, BillingDb,
}
use mcp_host.Billing.Windows.{window_bounds}
use mcp_host.Billing.Service.{
  active_subscription, latest_subscription_by_id, plan_entitlement, in_window, usage_window,
}

-- `anyhow!` messages, and the database's own refusals.
pub data BillingError : Type 0 where
  message : String → BillingError
  -- "subscription {id} missing for usage reconciliation"
  subscription_missing : ℕ → BillingError
  -- "billing plan {code} not found"
  plan_not_found : String → BillingError
  database : String → BillingError

-- INSERT ... ON CONFLICT (subscription_id, entitlement_key, window_start, window_end) DO UPDATE. The
-- sum is a BIGINT, which the database refuses out of range.
unfoldable pub record_usage :
    (fresh db_now : ℕ)
    → ℕ
    → String
    → ℕ × ℕ
    → ℤ
    → BillingDb
    → Result SubscriptionUsageWindow BillingError × BillingDb
record_usage fresh db_now subscription_id key window delta db =
    elim (usage_window db subscription_id key window) [
      | none ↦
          let row : SubscriptionUsageWindow = record {
            id = fresh;
            subscription_id = subscription_id;
            entitlement_key = key;
            window_start = window.0;
            window_end = window.1;
            used_quantity = delta;
            updated_at = db_now;
          } in
          (ok row, record db { ledger = db.ledger ++ row ∷ [] })
      | some u ↦ elim (checked_add_i64 u.used_quantity delta) [
        | none ↦ (err (database "bigint out of range"), db)
        | some total ↦ (
          ok (record u { used_quantity = total; updated_at = db_now }),
          record db {
            ledger =
                update_where (in_window subscription_id key window)
                  (λ r. record r { used_quantity = total; updated_at = db_now }) db.ledger;
          },
        )
      ]
    ]

-- The decision of `enforce_quota` on a limit, and the notes that it leaves.
pub record Decision : Type 0 where
  pub allowed : Bool
  pub remaining : Option ℤ
  pub notes : List String

unfoldable pub decide : String → Option ℤ → ℤ → ℤ → Decision
decide key none used requested = record {
  allowed = true;
  remaining = none;
  notes = format ("billing:quota:" ∷ key ∷ ":unlimited" ∷ []) ∷ [];
}
decide key (some limit) used requested =
    let future_used = add_i64 used requested in
    if ltb_ℤ limit future_used
    then record {
      allowed = false;
      remaining = some (saturating_sub_i64 limit used);
      notes = format ("billing:quota-exceeded:" ∷ key ∷ []) ∷ [];
    }
    else record {
      allowed = true;
      remaining = some (sub_i64 limit future_used);
      notes =
          format ("billing:quota:" ∷ key ∷ ":" ∷ show_int future_used ∷ "/" ∷ show_int limit ∷ [])
          ∷ [];
    }

abbrev pub used_of : Option SubscriptionUsageWindow → ℤ
used_of none = pos 0
used_of (some u) = u.used_quantity

abbrev pub outcome : String → Option ℤ → ℤ → Decision → BillingQuotaOutcome
outcome key limit used d = record {
  allowed = d.allowed;
  entitlement_key = key;
  limit_quantity = limit;
  used_quantity = used;
  remaining_quantity = d.remaining;
  notes = d.notes;
}

-- `?` on the result of `record_usage`
abbrev pub after_recording :
    BillingQuotaOutcome
    → Result SubscriptionUsageWindow BillingError × BillingDb
    → Result BillingQuotaOutcome BillingError × BillingDb
after_recording o (ok _, db) = (ok o, db)
after_recording o (err e, db) = (err e, db)

abbrev pub missing_outcome : String → BillingQuotaOutcome
missing_outcome key = record {
  allowed = false;
  entitlement_key = key;
  limit_quantity = some (pos 0);
  used_quantity = pos 0;
  remaining_quantity = some (pos 0);
  notes = "billing:subscription-missing" ∷ [];
}

abbrev pub unlimited_outcome : String → BillingQuotaOutcome
unlimited_outcome key = record {
  allowed = true;
  entitlement_key = key;
  limit_quantity = none;
  used_quantity = pos 0;
  remaining_quantity = none;
  notes = "billing:entitlement-unlimited" ∷ [];
}

-- The part of `enforce_quota` after the entitlement is found.
unfoldable pub enforce_entitlement :
    (fresh db_now : ℕ)
    → ℕ
    → String
    → Option ℤ
    → ℕ × ℕ
    → ℤ
    → Bool
    → BillingDb
    → Result BillingQuotaOutcome BillingError × BillingDb
enforce_entitlement fresh db_now subscription_id key limit window requested record_it db =
    let used = used_of (usage_window db subscription_id key window) in
    let d = decide key limit used requested in
    if d.allowed && record_it && ltb_ℤ (pos 0) requested
    then after_recording (outcome key limit used d)
        (record_usage fresh db_now subscription_id key window requested db)
    else (ok (outcome key limit used d), db)

module _ (cal : Calendar) where
  unfoldable pub enforce_quota :
      (now fresh db_now : ℕ)
      → ℕ
      → String
      → ℤ
      → Bool
      → BillingDb
      → Result BillingQuotaOutcome BillingError × BillingDb
  enforce_quota now fresh db_now organization_id key requested record_it db =
      if ltb_ℤ requested (pos 0)
      then (err (message "requested quantity must be non-negative"), db)
      else elim (active_subscription db organization_id now) [
        | none ↦ (ok (missing_outcome key), db)
        | some (s, plan) ↦ elim (plan_entitlement db s.plan_id key) [
          | none ↦ (ok (unlimited_outcome key), db)
          | some e ↦
              enforce_entitlement fresh db_now s.id key e.limit_quantity
                (window_bounds cal now e.reset_interval) requested record_it db
        ]
      ]

unfoldable pub settle_usage :
    (fresh db_now : ℕ)
    → ℕ
    → UsageReconciliationRecord
    → BillingDb
    → Result SubscriptionUsageWindow BillingError × BillingDb
settle_usage fresh db_now organization_id r db =
    if ltb_ℤ r.quantity (pos 0)
    then (err (message "usage quantity must be non-negative"), db)
    else elim (latest_subscription_by_id db r.subscription_id) [
      | none ↦ (err (subscription_missing r.subscription_id), db)
      | some s ↦
          if s.organization_id == organization_id
          then record_usage fresh db_now s.id r.entitlement_key (r.window_start, r.window_end)
              r.quantity db
          else (err (message "usage subscription organization mismatch"), db)
    ]
