-- ===== src/Billing/Requests.antt =====
-- What `enforce_quota` of backend/src/billing/service.rs writes, and sequences of its calls.
use mcp_host.Prelude.{
  ℕ, ◌≡◌, refl, sym, ap, ◌∙◌, Bool, true, Option, some, List, [], ◌∷◌, String, arith, ◌&&◌,
  if◌then◌else◌, inl, inr, Bool-cases, Option-cases, Result, ok, err, ℤ, pos, ◌+ℤ◌, ltb_ℤ, InI64,
  ◌⊎◌, All,
}
use mcp_host.Chrono.{Calendar}
use mcp_host.Billing.Models.{
  OrganizationSubscription, BillingPlan, PlanEntitlement, BillingQuotaOutcome, BillingDb,
  SubscriptionUsageWindow,
}
use mcp_host.Billing.Windows.{window_bounds}
use mcp_host.Billing.Service.{active_subscription, plan_entitlement, usage_window}
use mcp_host.Billing.Usage.{
  BillingError, after_recording, decide, enforce_entitlement, enforce_quota, record_usage,
}
use mcp_host.Billing.Ledger.{window_used, same_window, record_usage-window_used, record_usage_error}
use mcp_host.Billing.Lookup.{UniqueIds}
use mcp_host.Billing.Quota.{WithinQuota, enforce_quota-WithinQuota, record_usage_tables}

-- A call that changed the tables: it granted the request, and added it to one window.
pub record Granted (id : ℕ) (key : String) (window : ℕ × ℕ) (requested : ℤ) (db : BillingDb)
    (after : Result BillingQuotaOutcome BillingError × BillingDb) : Type 0 where
  pub answer : BillingQuotaOutcome
  pub answered : after.0 ≡ ok answer
  pub allowed : answer.allowed ≡ true
  pub subscriptions : after.1.subscriptions ≡ db.subscriptions
  pub used :
      (id' : ℕ) (key' : String) (window' : ℕ × ℕ)
      → window_used after.1 id' key' window' ≡ (
          if same_window id key window id' key' window'
          then window_used db id key window +ℤ requested
          else window_used db id' key' window')

module _ (fresh db_now id : ℕ) (key : String) (limit : Option ℤ) (window : ℕ × ℕ) (requested : ℤ)
    (record_it : Bool) (db : BillingDb) where
  abbrev entitled : Result BillingQuotaOutcome BillingError × BillingDb
  entitled = enforce_entitlement fresh db_now id key limit window requested record_it db

  recorded-Granted :
      (o : BillingQuotaOutcome)
      → o.allowed ≡ true
      → ((after_recording o (record_usage fresh db_now id key window requested db)).1 ≡ db)
        ⊎ Granted id key window requested db
            (after_recording o (record_usage fresh db_now id key window requested db))
  recorded-Granted o a = go (record_usage fresh db_now id key window requested db) refl
    where
      go :
          (r : Result SubscriptionUsageWindow BillingError × BillingDb)
          → record_usage fresh db_now id key window requested db ≡ r
          → ((after_recording o r).1 ≡ db)
            ⊎ Granted id key window requested db (after_recording o r)
      go (ok u, db') e = inr (record {
        answer = o;
        answered = refl;
        allowed = a;
        subscriptions =
            sym (
              ap
                (λ (t : Result SubscriptionUsageWindow BillingError × BillingDb). t.1.subscriptions)
                e)
            ∙ (record_usage_tables fresh db_now id key window requested db).0;
        used = λ id' key' window'.
            sym (
              ap
                (λ (t : Result SubscriptionUsageWindow BillingError × BillingDb).
                  window_used t.1 id' key' window')
                e)
            ∙ record_usage-window_used fresh db_now id key window requested db id' key' window' u
                (ap (λ (t : Result SubscriptionUsageWindow BillingError × BillingDb). t.0) e);
      })
      go (err x, db') e = inl (
          sym (ap (λ (t : Result SubscriptionUsageWindow BillingError × BillingDb). t.1) e)
          ∙ (record_usage_error fresh db_now id key window requested db x
              (ap (λ (t : Result SubscriptionUsageWindow BillingError × BillingDb). t.0) e)).0)

  entitled-Granted : (entitled.1 ≡ db) ⊎ Granted id key window requested db entitled
  unfolding enforce_entitlement window_used usage_window
  entitled-Granted =
      elim (Bool-cases (
        (decide key limit (window_used db id key window) requested).allowed
        && record_it
        && ltb_ℤ (pos 0) requested)) [
          | inr e ↦ inl (rw (e, enforce_entitlement))
          | inl e ↦ rw (e, enforce_entitlement) (recorded-Granted _ (ground arith))
        ]

module _ (cal : Calendar) where
  -- One call of `enforce_quota` either leaves the tables as they were, or answers with a grant and
  -- adds exactly the requested quantity to one usage window of the active subscription: every other
  -- window keeps what it held. So a refused request, and one that ends in an error, writes nothing.
  pub enforce_quota-Granted :
      (now fresh db_now organization_id : ℕ) (key : String) (requested : ℤ) (record_it : Bool)
      (db : BillingDb)
      → ((enforce_quota cal now fresh db_now organization_id key requested record_it db).1 ≡ db)
        ⊎ ((s : OrganizationSubscription) × (p : BillingPlan) × (e : PlanEntitlement)
            × (active_subscription db organization_id now ≡ some (s, p))
            × (plan_entitlement db s.plan_id key ≡ some e)
            × Granted s.id key
                (window_bounds cal now e.reset_interval)
                requested
                db
                (enforce_quota cal now fresh db_now organization_id key requested record_it db))
  unfolding enforce_quota
  enforce_quota-Granted now fresh db_now o key requested record_it db =
      elim (Bool-cases (ltb_ℤ requested (pos 0))) [
        | inl n ↦ inl (rw (n, enforce_quota))
        | inr n ↦
            rw (n, enforce_quota)
              (elim (Option-cases (active_subscription db o now)) [
                | inl a ↦ inl (rw a)
                | inr ((s, p), a) ↦ rw a (elim (Option-cases (plan_entitlement db s.plan_id key)) [
                  | inl b ↦ inl (rw b)
                  | inr (e, b) ↦
                      rw b
                        (elim (entitled-Granted fresh db_now s.id key e.limit_quantity
                          (window_bounds cal now e.reset_interval) requested record_it db) [
                            | inl c ↦ inl c
                            | inr c ↦ inr (s, p, e, refl, b, c)
                          ])
                ])
              ])
      ]

  subscriptions-enforce_quota :
      (now fresh db_now o : ℕ) (key : String) (requested : ℤ) (record_it : Bool) (db : BillingDb)
      → (enforce_quota cal now fresh db_now o key requested record_it db).1.subscriptions
        ≡ db.subscriptions
  subscriptions-enforce_quota now fresh db_now o key requested record_it db =
      elim (enforce_quota-Granted now fresh db_now o key requested record_it db) [
        | inl e ↦ rw e
        | inr (s, p, e, a, b, g) ↦ g.subscriptions
      ]

-- The arguments of one call.
pub record QuotaRequest : Type 0 where
  pub now : ℕ
  pub fresh : ℕ
  pub db_now : ℕ
  pub organization_id : ℕ
  pub entitlement_key : String
  pub requested_quantity : ℤ
  pub record_usage : Bool

module _ (cal : Calendar) where
  -- Calls one after the other, each to its end.
  unfoldable pub serve : List QuotaRequest → BillingDb → BillingDb
  serve [] db = db
  serve (r ∷ rs) db =
      serve rs
        (enforce_quota cal r.now r.fresh r.db_now r.organization_id r.entitlement_key
          r.requested_quantity r.record_usage db).1

  -- However many requests are served, one after the other, for whatever organizations, keys,
  -- quantities and instants: no usage window passes the limit of its subscription's plan.
  pub serve-WithinQuota :
      (rs : List QuotaRequest) (db : BillingDb)
      → All (λ r. InI64 r.requested_quantity) rs
      → UniqueIds db.subscriptions
      → WithinQuota db
      → WithinQuota (serve rs db)
  unfolding serve
  serve-WithinQuota [] db ranges unique v = v
  serve-WithinQuota (r ∷ rs) db ranges unique v =
      serve-WithinQuota rs _ ranges.1
        (rw
          (subscriptions-enforce_quota cal r.now r.fresh r.db_now r.organization_id
            r.entitlement_key r.requested_quantity r.record_usage db)
          unique)
        (enforce_quota-WithinQuota cal r.now r.fresh r.db_now r.organization_id r.entitlement_key
          r.requested_quantity r.record_usage db ranges.0 unique v)
