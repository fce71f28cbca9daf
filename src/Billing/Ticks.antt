-- ===== src/Billing/Ticks.antt =====
-- What one tick of backend/src/billing/scheduler.rs does to each organization's subscription.
use mathlib.Core.Option
use mcp_host.Prelude.{
  ℕ, ◌≡◌, refl, ap, ◌∙◌, Option, none, some, List, String, arith, str_eq, ◌&&◌, ◌||◌, if◌then◌else◌,
}
use mcp_host.Chrono.{Calendar}
use mcp_host.Billing.Models.{OrganizationSubscription, BillingPlan, BillingDb}
use mcp_host.Billing.Service.{plan_by_id}
use mcp_host.Billing.Subscriptions.{past_due_row}
use mcp_host.Billing.Scheduler.{
  renewal_candidates, past_due_accounts, should_mark_past_due, renew_all, settle_all, process_tick,
}
use mcp_host.Billing.Rows.{row_of, Keyed}
use mcp_host.Billing.Candidates.{joined-Distinct, row_for-joined, Ran}
use mcp_host.Billing.Steps.{renew_change, renew_all-Ran, ended_row, is_due, settle_all-Ran}

module _ (cal : Calendar) (now db_now grace_days : ℕ) (fallback : Option String) where
  -- The renewal pass on one subscription with its plan.
  unfoldable pub renewed_row :
      Option BillingPlan → OrganizationSubscription → OrganizationSubscription
  renewed_row none s = s
  renewed_row (some p) s =
      if (str_eq s.status "trialing" || str_eq s.status "active")
        && should_mark_past_due cal now (s, p)
      then past_due_row db_now s
      else s

  -- The grace pass on one subscription with its plan.
  unfoldable pub settled_row :
      List BillingPlan → Option BillingPlan → OrganizationSubscription → OrganizationSubscription
  settled_row plans none s = s
  settled_row plans (some p) s =
      if str_eq s.status "past_due" && is_due now db_now grace_days fallback s
      then ended_row db_now fallback plans p s
      else s

  unfoldable pub tick_row : List BillingPlan → OrganizationSubscription → OrganizationSubscription
  unfolding renewed_row settled_row is_due
  tick_row plans s =
      let plan = plan_by_id plans s.plan_id in settled_row plans plan (renewed_row plan s)

  abbrev renewed : BillingDb → BillingDb
  renewed db = renew_all cal now db_now (renewal_candidates db) db

  renewed-Ran :
      (db : BillingDb)
      → Keyed db.subscriptions
      → Ran (renew_change cal now db_now) (renewal_candidates db) db (renewed db)
  unfolding renewal_candidates
  renewed-Ran db k =
      renew_all-Ran cal now db_now (renewal_candidates db) db
        (joined-Distinct db.plans _ db.subscriptions k) k

  row_of-renewed :
      (o : ℕ) (db : BillingDb)
      → Keyed db.subscriptions
      → row_of (renewed db) o
        ≡ Option.map (λ s. renewed_row (plan_by_id db.plans s.plan_id) s) (row_of db o)
  unfolding renewal_candidates renewed_row
  row_of-renewed o db k =
      (renewed-Ran db k).rows o
      ∙ rw
          (row_for-joined db.plans (λ s. str_eq s.status "trialing" || str_eq s.status "active") o
            db.subscriptions k)
          (ground arith)

  row_of-settled :
      (o : ℕ) (db : BillingDb)
      → Keyed db.subscriptions
      → row_of (settle_all now db_now grace_days fallback (past_due_accounts db) db) o
        ≡ Option.map (λ s. settled_row db.plans (plan_by_id db.plans s.plan_id) s) (row_of db o)
  unfolding past_due_accounts settled_row
  row_of-settled o db k =
      (settle_all-Ran now db_now grace_days fallback (past_due_accounts db) db
          (joined-Distinct db.plans (λ s. str_eq s.status "past_due") db.subscriptions k) k).rows
        o
      ∙ rw (row_for-joined db.plans (λ s. str_eq s.status "past_due") o db.subscriptions k)
          (ground arith)

  plan_id-renewed :
      (plan : Option BillingPlan) (s : OrganizationSubscription)
      → (renewed_row plan s).plan_id ≡ s.plan_id
  unfolding renewed_row
  plan_id-renewed none s = refl
  plan_id-renewed (some p) s = ground arith

  map_twice :
      (plans : List BillingPlan) (mine : Option OrganizationSubscription)
      → Option.map
          (λ s. settled_row plans (plan_by_id plans s.plan_id) s)
          (Option.map (λ s. renewed_row (plan_by_id plans s.plan_id) s) mine)
        ≡ Option.map (tick_row plans) mine
  unfolding tick_row
  map_twice plans none = refl
  map_twice plans (some s) =
      ap {B = Option OrganizationSubscription}
        (λ n.
          some
            (settled_row plans (plan_by_id plans n) (renewed_row (plan_by_id plans s.plan_id) s)))
        (plan_id-renewed (plan_by_id plans s.plan_id) s)

  -- Where each organization has one subscription, a tick acts on every organization by itself: its
  -- subscription after the tick is `tick_row` of the one before. The table keeps one subscription
  -- for each organization, and the plans do not change.
  pub process_tick-row :
      (o : ℕ) (db : BillingDb)
      → Keyed db.subscriptions
      → (row_of (process_tick cal now db_now grace_days fallback db) o
          ≡ Option.map (tick_row db.plans) (row_of db o))
        × Keyed (process_tick cal now db_now grace_days fallback db).subscriptions
        × ((process_tick cal now db_now grace_days fallback db).plans ≡ db.plans)
  unfolding process_tick past_due_accounts
  process_tick-row o db k =
      let r = renewed-Ran db k in
      let t =
        settle_all-Ran now db_now grace_days fallback (past_due_accounts (renewed db)) (renewed db)
          (joined-Distinct (renewed db).plans (λ s. str_eq s.status "past_due")
            (renewed db).subscriptions r.keyed)
          r.keyed in
      (
        row_of-settled o (renewed db) r.keyed
            ∙ rw (r.plans, row_of-renewed o db k) (map_twice db.plans (row_of db o)),
        t.keyed,
        t.plans ∙ r.plans,
      )
