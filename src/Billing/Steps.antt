-- ===== src/Billing/Steps.antt =====
-- The bodies of the two loops of backend/src/billing/scheduler.rs, as changes of one row each.
use mathlib.Core.Path.{fun_ext, subst}
use mcp_host.Prelude.{
  ℕ, ◌+◌, ◌*◌, ◌≡◌, refl, ◌∙◌, Bool, true, false, Option, none, some, List, String, arith, ltb,
  str_eq, not, if◌then◌else◌, inl, inr, Bool-cases, Option-cases, Result, ok, err,
}
use mcp_host.Chrono.{Calendar, day}
use mcp_host.Billing.Models.{OrganizationSubscription, BillingPlan, BillingDb}
use mcp_host.Billing.Usage.{BillingError}
use mcp_host.Billing.Subscriptions.{
  past_due_row, suspended_row, downgraded_row, active_plan, downgrade_subscription,
  mark_subscription_overdue,
}
use mcp_host.Billing.Scheduler.{
  should_mark_past_due, renew_all, suspend, or_suspend, end_grace, settle_past_due, settle_all,
}
use mcp_host.Billing.Rows.{
  row_of, Keyed, Changes, mark-Changes, suspend-Changes, downgrade-Changes, downgrade_result,
  downgrade_missing,
}
use mcp_host.Billing.Candidates.{Joined, Distinct, run, Ran, run-Ran}

-- A change that a test guards.
abbrev pub guarded :
    Bool
    → (OrganizationSubscription → OrganizationSubscription)
    → OrganizationSubscription
    → OrganizationSubscription
guarded b f s = if b then f s else s

Changes-self : (o : ℕ) (db : BillingDb) → Keyed db.subscriptions → Changes o (λ t. t) db db
Changes-self o db k = record { rows = λ o'. ground arith; keyed = k; plans = refl }

Changes-guarded :
    (b : Bool) (o : ℕ) (f : OrganizationSubscription → OrganizationSubscription)
    (db db' : BillingDb)
    → Keyed db.subscriptions
    → Changes o f db db'
    → Changes o (guarded b f) db (if b then db' else db)
Changes-guarded true o f db db' k c = c
Changes-guarded false o f db db' k c = Changes-self o db k

module _ (cal : Calendar) (now db_now : ℕ) where
  renew_step : Joined → BillingDb → BillingDb
  renew_step r db =
      if should_mark_past_due cal now r
      then (mark_subscription_overdue db_now r.0.organization_id db).1
      else db

  abbrev pub renew_change : Joined → OrganizationSubscription → OrganizationSubscription
  renew_change r = guarded (should_mark_past_due cal now r) (past_due_row db_now)

  renew_all-run :
      (rs : List Joined) (db : BillingDb) → renew_all cal now db_now rs db ≡ run renew_step rs db
  unfolding renew_all renew_step
  renew_all-run List.[] db = refl
  renew_all-run (List.◌∷◌ r rs) db = renew_all-run rs (renew_step r db)

  renew_step-Changes :
      (r : Joined) (db : BillingDb)
      → Keyed db.subscriptions
      → Changes r.0.organization_id (renew_change r) db (renew_step r db)
  unfolding renew_step
  renew_step-Changes r db k =
      Changes-guarded (should_mark_past_due cal now r) r.0.organization_id (past_due_row db_now) db
        _ k (mark-Changes db_now r.0.organization_id db k)

  pub renew_all-Ran :
      (rs : List Joined) (db : BillingDb)
      → Distinct rs
      → Keyed db.subscriptions
      → Ran renew_change rs db (renew_all cal now db_now rs db)
  renew_all-Ran rs db d k = rw renew_all-run (
      run-Ran renew_step renew_change db.plans (λ r db' k' _. renew_step-Changes r db' k') rs db d k
        refl)

abbrev or_suspended :
    (db_now : ℕ) → Option BillingPlan → OrganizationSubscription → OrganizationSubscription
or_suspended db_now none s = suspended_row db_now s
or_suspended db_now (some plan) s = downgraded_row db_now plan.id s

-- What becomes of a subscription at the end of its grace period.
abbrev pub ended_row :
    (db_now : ℕ)
    → Option String
    → List BillingPlan
    → BillingPlan
    → OrganizationSubscription
    → OrganizationSubscription
ended_row db_now none plans p s = suspended_row db_now s
ended_row db_now (some code) plans p s =
    if not (str_eq p.code code)
    then or_suspended db_now (active_plan plans code) s
    else suspended_row db_now s

-- Only what a change does to each row counts.
Changes-ext :
    (o : ℕ) (f g : OrganizationSubscription → OrganizationSubscription) (db db' : BillingDb)
    → ((t : OrganizationSubscription) → g t ≡ f t)
    → Changes o f db db'
    → Changes o g db db'
Changes-ext o f g db db' e c = rw (fun_ext e) c

-- The `match` on the downgrade's result, by its cases.
or_suspend-some :
    (db_now o : ℕ) (res : Result (Option OrganizationSubscription) BillingError × BillingDb)
    (row : OrganizationSubscription)
    → res.0 ≡ ok (some row)
    → or_suspend db_now o res ≡ res.1
or_suspend-some db_now o (ok (some s), db) row e = refl
or_suspend-some db_now o (ok none, db) row e = cc
or_suspend-some db_now o (err x, db) row e = cc

or_suspend-none :
    (db_now o : ℕ) (res : Result (Option OrganizationSubscription) BillingError × BillingDb)
    → res.0 ≡ ok none
    → or_suspend db_now o res ≡ suspend db_now o res.1
or_suspend-none db_now o (ok (some s), db) e = cc
or_suspend-none db_now o (ok none, db) e = refl
or_suspend-none db_now o (err x, db) e = cc

Changes-after :
    (o : ℕ) (f g : OrganizationSubscription → OrganizationSubscription) (db db' db'' : BillingDb)
    → row_of db o ≡ none
    → Changes o f db db'
    → Changes o g db' db''
    → Changes o f db db''
Changes-after o f g db db' db'' e c d = record {
  rows = λ o'. d.rows o' ∙ rw (c.rows o, c.rows o', e) (ground arith);
  keyed = d.keyed;
  plans = d.plans ∙ c.plans;
}

or_suspend-Changes :
    (db_now o : ℕ) (code : String) (plan : BillingPlan) (db : BillingDb)
    → Keyed db.subscriptions
    → active_plan db.plans code ≡ some plan
    → Changes o
        (downgraded_row db_now plan.id)
        db
        (or_suspend db_now o (downgrade_subscription db_now o code db))
or_suspend-Changes db_now o code plan db k a =
    let c : Changes o (downgraded_row db_now plan.id) db
        (downgrade_subscription db_now o code db).1 =
      downgrade-Changes db_now o code plan db k a in
    let r = downgrade_result db_now o code plan db k a in
    elim (Option-cases (row_of db o)) [
      | inl e ↦
          rw (or_suspend-none db_now o (downgrade_subscription db_now o code db) (r ∙ rw e)) (
            Changes-after o _ (suspended_row db_now) db _ _ e c
              (suspend-Changes db_now o _ c.keyed))
      | inr (s, e) ↦
          rw
            (or_suspend-some db_now o (downgrade_subscription db_now o code db)
              (downgraded_row db_now plan.id s) (r ∙ rw e))
            c
    ]

module _ (db_now : ℕ) (s : OrganizationSubscription) (p : BillingPlan) where
  abbrev owner : ℕ
  owner = s.organization_id

  end_grace-Changes :
      (fallback : Option String) (db : BillingDb)
      → Keyed db.subscriptions
      → Changes owner
          (ended_row db_now fallback db.plans p)
          db
          (end_grace db_now fallback (s, p) db)
  unfolding end_grace
  end_grace-Changes none db k = suspend-Changes db_now owner db k
  end_grace-Changes (some code) db k = elim (Bool-cases (not (str_eq p.code code))) [
    | inr e ↦
        rw (e, end_grace)
          (Changes-ext owner _ _ db _ (λ t. rw e) (suspend-Changes db_now owner db k))
    | inl e ↦
        rw (e, end_grace)
          (elim (Option-cases (active_plan db.plans code)) [
            | inr (plan, a) ↦
                Changes-ext owner _ _ db _ (λ t. rw e (rw a))
                  (or_suspend-Changes db_now owner code plan db k a)
            | inl a ↦
                rw (downgrade_missing db_now owner code db a) (
                  Changes-ext owner _ _ db _ (λ t. rw e (rw a)) (suspend-Changes db_now owner db k))
          ])
  ]

module _ (now db_now grace_days : ℕ) (fallback : Option String) where
  unfoldable pub is_due : OrganizationSubscription → Bool
  is_due s = not (ltb now (s.updated_at + grace_days * day))

  abbrev pub settle_change :
      List BillingPlan → Joined → OrganizationSubscription → OrganizationSubscription
  settle_change plans r = guarded (is_due r.0) (ended_row db_now fallback plans r.1)

  settle-Changes :
      (r : Joined) (db : BillingDb)
      → Keyed db.subscriptions
      → Changes r.0.organization_id
          (settle_change db.plans r)
          db
          (settle_past_due now db_now grace_days fallback r db)
  unfolding settle_past_due is_due
  settle-Changes (s, p) db k = elim (Bool-cases (ltb now (s.updated_at + grace_days * day))) [
    | inl e ↦
        rw (e, settle_past_due)
          (Changes-ext s.organization_id (λ t. t) _ db _ (λ t. refl)
            (Changes-self s.organization_id db k))
    | inr e ↦
        rw (e, settle_past_due)
          (Changes-ext s.organization_id _ _ db _ (λ t. refl)
            (end_grace-Changes db_now s p fallback db k))
  ]

  settle_all-run :
      (rs : List Joined) (db : BillingDb)
      → settle_all now db_now grace_days fallback rs db
        ≡ run (settle_past_due now db_now grace_days fallback) rs db
  unfolding settle_all
  settle_all-run List.[] db = refl
  settle_all-run (List.◌∷◌ r rs) db =
      settle_all-run rs (settle_past_due now db_now grace_days fallback r db)

  pub settle_all-Ran :
      (rs : List Joined) (db : BillingDb)
      → Distinct rs
      → Keyed db.subscriptions
      → Ran (settle_change db.plans) rs db (settle_all now db_now grace_days fallback rs db)
  settle_all-Ran rs db d k = rw settle_all-run (
      run-Ran (settle_past_due now db_now grace_days fallback) (settle_change db.plans) db.plans
        (λ r db' k' e.
          subst
            (λ ps.
              Changes r.0.organization_id (settle_change ps r) db'
                (settle_past_due now db_now grace_days fallback r db'))
            e (settle-Changes r db' k'))
        rs db d k refl)
