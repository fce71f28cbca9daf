-- ===== src/Billing/Quota.antt =====
-- Quotas are kept: `enforce_quota` of backend/src/billing/service.rs never lets the usage of a window
-- pass the limit of the subscription's plan.
use mcp_host.Prelude.{
  ℕ, ◌≡◌, refl, sym, ◌∙◌, Bool, true, false, Option, some, String, arith, eq_iff, ◌&&◌, inl, inr,
  Bool-cases, Option-cases, Result, Result-cases, ok, err, ℤ, pos, ◌≤ℤ◌, ltb_ℤ, InI64, add_i64, ◌⊎◌,
}
use mcp_host.Chrono.{Calendar}
use mcp_host.Billing.Models.{
  OrganizationSubscription, BillingPlan, PlanEntitlement, BillingQuotaOutcome, BillingDb,
  SubscriptionUsageWindow,
}
use mcp_host.Billing.Windows.{window_bounds}
use mcp_host.Billing.Service.{
  active_subscription, latest_subscription_by_id, plan_entitlement, usage_window,
}
use mcp_host.Billing.Usage.{
  BillingError, after_recording, decide, enforce_entitlement, enforce_quota, record_usage,
}
use mcp_host.Billing.Ledger.{
  window_used, same_window, record_usage-window_used, record_usage_error, record_usage_exact,
}
use mcp_host.Billing.Lookup.{UniqueIds, active_subscription-by_id}

-- In every window the usage of every subscription is within the limit of its plan.
abbrev pub WithinQuota : BillingDb → Type 0
WithinQuota db =
    (id : ℕ) (key : String) (window : ℕ × ℕ) (s : OrganizationSubscription) (e : PlanEntitlement)
    (limit : ℤ)
    → latest_subscription_by_id db id ≡ some s
    → plan_entitlement db s.plan_id key ≡ some e
    → e.limit_quantity ≡ some limit
    → pos 0 ≤ℤ limit
    → window_used db id key window ≤ℤ limit

-- A request that is granted fits, by the program's own sum.
decide-fits :
    (key : String) (limit used requested : ℤ)
    → (decide key (some limit) used requested).allowed ≡ true
    → add_i64 used requested ≤ℤ limit
unfolding decide
decide-fits key limit used requested h = ground arith

after_recording-db :
    (o : BillingQuotaOutcome) (r : Result SubscriptionUsageWindow BillingError × BillingDb)
    → (after_recording o r).1 ≡ r.1
after_recording-db o (ok u, db) = refl
after_recording-db o (err x, db) = refl

module _ (fresh db_now id : ℕ) (key : String) (limit : Option ℤ) (window : ℕ × ℕ) (requested : ℤ)
    (record_it : Bool) (db : BillingDb) where
  abbrev entitled : Result BillingQuotaOutcome BillingError × BillingDb
  entitled = enforce_entitlement fresh db_now id key limit window requested record_it db

  abbrev granted : Bool
  granted = (decide key limit (window_used db id key window) requested).allowed

  -- Either nothing is written, or the request is granted and recorded.
  enforce_entitlement-cases :
      (entitled.1 ≡ db)
      ⊎ ((granted ≡ true) × (entitled.1 ≡ (record_usage fresh db_now id key window requested db).1))
  unfolding enforce_entitlement window_used usage_window
  enforce_entitlement-cases = elim (Bool-cases (granted && record_it && ltb_ℤ (pos 0) requested)) [
    | inr e ↦ inl (rw (e, enforce_entitlement))
    | inl e ↦ inr (ground arith, rw (e, enforce_entitlement) (after_recording-db _ _))
  ]

-- A grant that is recorded leaves its own window within the limit, and the others as they were.
recorded-bound :
    (fresh db_now id : ℕ) (key : String) (limit : ℤ) (window : ℕ × ℕ) (requested : ℤ)
    (db : BillingDb) (id' : ℕ) (key' : String) (window' : ℕ × ℕ)
    → InI64 requested
    → (decide key (some limit) (window_used db id key window) requested).allowed ≡ true
    → (window_used (record_usage fresh db_now id key window requested db).1 id' key' window'
        ≡ window_used db id' key' window')
      ⊎ ((same_window id key window id' key' window' ≡ true)
          × (window_used (record_usage fresh db_now id key window requested db).1 id' key' window'
              ≤ℤ limit))
recorded-bound fresh db_now id key limit window requested db id' key' window' range grant =
    elim (Result-cases (record_usage fresh db_now id key window requested db).0) [
      | inr (x, e) ↦ inl (rw ((record_usage_error fresh db_now id key window requested db x e).0))
      | inl (u, e) ↦
          let after =
            record_usage-window_used fresh db_now id key window requested db id' key' window' u e in
          let exact = record_usage_exact fresh db_now id key window requested db u range e in
          elim (Bool-cases (same_window id key window id' key' window')) [
            | inr n ↦ inl (after ∙ rw n)
            | inl y ↦ inr (
              y,
              rw after (
                  rw y (
                    rw (← exact)
                      (decide-fits key limit (window_used db id key window) requested grant))),
            )
          ]
    ]

same_window→eq :
    (id id' : ℕ) (key key' : String) (w w' : ℕ × ℕ)
    → same_window id key w id' key' w' ≡ true
    → (id ≡ id') × (key ≡ key')
same_window→eq id id' key key' w w' h = ground (arith, eq_iff key key')

-- Recording usage leaves the other tables alone.
pub record_usage_tables :
    (fresh db_now id : ℕ) (key : String) (window : ℕ × ℕ) (delta : ℤ) (db : BillingDb)
    → ((record_usage fresh db_now id key window delta db).1.subscriptions ≡ db.subscriptions)
      × ((record_usage fresh db_now id key window delta db).1.entitlements ≡ db.entitlements)
      × ((record_usage fresh db_now id key window delta db).1.plans ≡ db.plans)
unfolding record_usage
record_usage_tables fresh db_now id key window delta db = ground arith

module _ (fresh db_now id : ℕ) (key : String) (window : ℕ × ℕ) (delta : ℤ) (db : BillingDb) where
  abbrev after : BillingDb
  after = (record_usage fresh db_now id key window delta db).1

  pub latest_subscription_by_id-record_usage :
      (i : ℕ) → latest_subscription_by_id after i ≡ latest_subscription_by_id db i
  unfolding latest_subscription_by_id
  latest_subscription_by_id-record_usage i =
      rw ((record_usage_tables fresh db_now id key window delta db).0)

  pub plan_entitlement-record_usage :
      (plan : ℕ) (k : String) → plan_entitlement after plan k ≡ plan_entitlement db plan k
  unfolding plan_entitlement
  plan_entitlement-record_usage plan k =
      rw ((record_usage_tables fresh db_now id key window delta db).1)

  recorded_other :
      (id' : ℕ) (key' : String) (window' : ℕ × ℕ)
      → same_window id key window id' key' window' ≡ false
      → window_used after id' key' window' ≡ window_used db id' key' window'
  recorded_other id' key' window' n =
      elim (Result-cases (record_usage fresh db_now id key window delta db).0) [
        | inr (x, e) ↦ rw ((record_usage_error fresh db_now id key window delta db x e).0)
        | inl (u, e) ↦
            record_usage-window_used fresh db_now id key window delta db id' key' window' u e ∙ rw n
      ]

-- Two entitlements of one subscription and one key are one.
same_limit :
    (db : BillingDb) (s s' : OrganizationSubscription) (e e' : PlanEntitlement) (key key' : String)
    (id' : ℕ) (limit : ℤ)
    → latest_subscription_by_id db s.id ≡ some s
    → plan_entitlement db s.plan_id key ≡ some e
    → latest_subscription_by_id db id' ≡ some s'
    → plan_entitlement db s'.plan_id key' ≡ some e'
    → e'.limit_quantity ≡ some limit
    → s.id ≡ id'
    → key ≡ key'
    → e.limit_quantity ≡ some limit
same_limit db s s' e e' key key' id' limit a b c d f g h =
    let subscription : s ≡ s' = cc in let entitlement : e ≡ e' = cc in cc

module _ (fresh db_now : ℕ) (window : ℕ × ℕ) (requested : ℤ) (db : BillingDb) where
  recorded-WithinQuota :
      (s : OrganizationSubscription) (key : String) (e : PlanEntitlement)
      → InI64 requested
      → latest_subscription_by_id db s.id ≡ some s
      → plan_entitlement db s.plan_id key ≡ some e
      → (decide key e.limit_quantity (window_used db s.id key window) requested).allowed ≡ true
      → WithinQuota db
      → WithinQuota (record_usage fresh db_now s.id key window requested db).1
  recorded-WithinQuota s key e range found plan grant v id' key' window' s' e' limit hs he hl hp =
      let hs' : latest_subscription_by_id db id' ≡ some s' =
        sym (latest_subscription_by_id-record_usage fresh db_now s.id key window requested db id')
        ∙ hs in
      let he' : plan_entitlement db s'.plan_id key' ≡ some e' =
        sym
          (plan_entitlement-record_usage fresh db_now s.id key window requested db s'.plan_id key')
        ∙ he in
      let old : window_used db id' key' window' ≤ℤ limit =
        v id' key' window' s' e' limit hs' he' hl hp in
      elim (Bool-cases (same_window s.id key window id' key' window')) [
        | inr n ↦
            rw (recorded_other fresh db_now s.id key window requested db id' key' window' n) old
        | inl y ↦
            let same = same_window→eq s.id id' key key' window window' y in
            let l : e.limit_quantity ≡ some limit =
              same_limit db s s' e e' key key' id' limit found plan hs' he' hl same.0 same.1 in
            elim (recorded-bound fresh db_now s.id key limit window requested db id' key' window'
              range (rw l at grant)) [ inl u ↦ rw u old | inr (_, b) ↦ b ]
      ]

module _ (cal : Calendar) where
  -- One quota request of any organization, key, quantity and instant keeps every window within its
  -- limit, in whatever way the request ends.
  pub enforce_quota-WithinQuota :
      (now fresh db_now organization_id : ℕ) (key : String) (requested : ℤ) (record_it : Bool)
      (db : BillingDb)
      → InI64 requested
      → UniqueIds db.subscriptions
      → WithinQuota db
      → WithinQuota
          (enforce_quota cal now fresh db_now organization_id key requested record_it db).1
  unfolding enforce_quota
  enforce_quota-WithinQuota now fresh db_now o key requested record_it db range unique v =
      elim (Bool-cases (ltb_ℤ requested (pos 0))) [
        | inl n ↦ rw (n, enforce_quota) v
        | inr n ↦
            rw (n, enforce_quota)
              (elim (Option-cases (active_subscription db o now)) [
                | inl a ↦ rw a v
                | inr ((s, p), a) ↦ rw a (elim (Option-cases (plan_entitlement db s.plan_id key)) [
                  | inl b ↦ rw b v
                  | inr (e, b) ↦ rw b (entitled_case s p e a b)
                ])
              ])
      ]
    where
      entitled_case :
          (s : OrganizationSubscription) (p : BillingPlan) (e : PlanEntitlement)
          → active_subscription db o now ≡ some (s, p)
          → plan_entitlement db s.plan_id key ≡ some e
          → WithinQuota
              (enforce_entitlement fresh db_now s.id key e.limit_quantity
                (window_bounds cal now e.reset_interval)
                requested
                record_it
                db).1
      entitled_case s p e a b =
          elim (enforce_entitlement-cases fresh db_now s.id key e.limit_quantity
            (window_bounds cal now e.reset_interval) requested record_it db) [
              | inl c ↦ rw c v
              | inr (g, c) ↦ rw c (
                  recorded-WithinQuota fresh db_now (window_bounds cal now e.reset_interval)
                    requested db s key e range (active_subscription-by_id db o now s p unique a) b g
                    v)
            ]
