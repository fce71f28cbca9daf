-- ===== src/Billing/Renewal.antt =====
-- What the renewal scheduler promises a customer: a grace period, and an end to it.
use mcp_host.Prelude.{
  ℕ, ◌+◌, ◌*◌, ◌≤◌, ◌<◌, ◌≡◌, refl, ap, ◌∙◌, true, false, Option, some, List, [], ◌∷◌, ◌++◌, All,
  String, arith, lt→ltb, inl, inr, ◌⊎◌, eq_iff, ==_refl,
}
use mcp_host.Chrono.{Calendar, day}
use mcp_host.Billing.Models.{OrganizationSubscription, BillingPlan, BillingDb, is_active}
use mcp_host.Billing.Service.{plan_by_id}
use mcp_host.Billing.Subscriptions.{past_due_row, upserted_row, upsert_subscription}
use mcp_host.Billing.Scheduler.{should_mark_past_due, process_tick}
use mcp_host.Billing.Rows.{row_of, Keyed, upsert-Changes}
use mcp_host.Billing.Steps.{ended_row}
use mcp_host.Billing.Ticks.{tick_row, process_tick-row}

abbrev pub IsCurrent : OrganizationSubscription → Type 0
IsCurrent s = (s.status ≡ "active") ⊎ (s.status ≡ "trialing")

module _ (cal : Calendar) (now db_now grace_days : ℕ) (fallback : Option String) where
  tick_row-current :
      (plans : List BillingPlan) (s : OrganizationSubscription)
      → IsCurrent s
      → now < db_now + grace_days * day
      → (tick_row cal now db_now grace_days fallback plans s ≡ s)
        ⊎ (tick_row cal now db_now grace_days fallback plans s ≡ past_due_row db_now s)
  unfolding tick_row
  tick_row-current plans s c g = ground (
    arith,
    eq_iff s.status "active",
    eq_iff s.status "trialing",
    eq_iff s.status "past_due",
    eq_iff "active" "past_due",
    eq_iff "trialing" "past_due",
  )

  -- A trialing or active subscription is at worst marked past due by a tick, as long as the grace
  -- period that starts with the mark is not over at the tick's own instant: it is never suspended or
  -- downgraded by the tick that finds it lapsed.
  pub renewal_grace :
      (o : ℕ) (db : BillingDb) (s : OrganizationSubscription)
      → Keyed db.subscriptions
      → row_of db o ≡ some s
      → IsCurrent s
      → now < db_now + grace_days * day
      → (row_of (process_tick cal now db_now grace_days fallback db) o ≡ some s)
        ⊎ (row_of (process_tick cal now db_now grace_days fallback db) o
            ≡ some (past_due_row db_now s))
  renewal_grace o db s k e c g =
      let row = (process_tick-row cal now db_now grace_days fallback o db k).0 in
      elim (tick_row-current db.plans s c g) [
        | inl t ↦ inl (row ∙ rw e (ap some t))
        | inr t ↦ inr (row ∙ rw e (ap some t))
      ]

  tick_row-lapsed :
      (plans : List BillingPlan) (s : OrganizationSubscription) (p : BillingPlan)
      → IsCurrent s
      → plan_by_id plans s.plan_id ≡ some p
      → should_mark_past_due cal now (s, p) ≡ true
      → now < db_now + grace_days * day
      → tick_row cal now db_now grace_days fallback plans s ≡ past_due_row db_now s
  unfolding tick_row
  tick_row-lapsed plans s p c e m g =
      ground
        (arith, eq_iff s.status "active", eq_iff s.status "trialing", eq_iff s.status "past_due")

  tick_row-ended :
      (plans : List BillingPlan) (s : OrganizationSubscription) (p : BillingPlan)
      → s.status ≡ "past_due"
      → plan_by_id plans s.plan_id ≡ some p
      → s.updated_at + grace_days * day ≤ now
      → tick_row cal now db_now grace_days fallback plans s ≡ ended_row db_now fallback plans p s
  unfolding tick_row
  tick_row-ended plans s p c e g = ground (
    arith,
    eq_iff s.status "active",
    eq_iff s.status "trialing",
    eq_iff s.status "past_due",
    eq_iff "past_due" "active",
    eq_iff "past_due" "trialing",
  )

  tick_row-waits :
      (plans : List BillingPlan) (s : OrganizationSubscription) (p : BillingPlan)
      → s.status ≡ "past_due"
      → plan_by_id plans s.plan_id ≡ some p
      → now < s.updated_at + grace_days * day
      → tick_row cal now db_now grace_days fallback plans s ≡ s
  unfolding tick_row
  tick_row-waits plans s p c e g = ground (
    arith,
    eq_iff s.status "active",
    eq_iff s.status "trialing",
    eq_iff s.status "past_due",
    eq_iff "past_due" "active",
    eq_iff "past_due" "trialing",
  )

module _ (cal : Calendar) (grace_days : ℕ) (fallback : Option String) where
  -- Ticks, each with the program's clock and the database's.
  abbrev pub ticks : List (ℕ × ℕ) → BillingDb → BillingDb
  ticks [] db = db
  ticks ((now, db_now) ∷ ts) db = ticks ts (process_tick cal now db_now grace_days fallback db)

  ticks-append :
      (ts : List (ℕ × ℕ)) (t : ℕ × ℕ) (db : BillingDb)
      → ticks (ts ++ t ∷ []) db ≡ process_tick cal t.0 t.1 grace_days fallback (ticks ts db)
  ticks-append [] t db = refl
  ticks-append ((now, db_now) ∷ ts) t db =
      ticks-append ts t (process_tick cal now db_now grace_days fallback db)

  ticks-waits :
      (o : ℕ) (s : OrganizationSubscription) (p : BillingPlan) (ts : List (ℕ × ℕ)) (db : BillingDb)
      → Keyed db.subscriptions
      → row_of db o ≡ some s
      → s.status ≡ "past_due"
      → plan_by_id db.plans s.plan_id ≡ some p
      → All (λ t. t.0 < s.updated_at + grace_days * day) ts
      → (row_of (ticks ts db) o ≡ some s)
        × Keyed (ticks ts db).subscriptions
        × ((ticks ts db).plans ≡ db.plans)
  ticks-waits o s p [] db k e c plan within = (e, k, refl)
  ticks-waits o s p ((now, db_now) ∷ ts) db k e c plan within =
      let (row, keyed, plans) = process_tick-row cal now db_now grace_days fallback o db k in
      let after = process_tick cal now db_now grace_days fallback db in
      let kept : row_of after o ≡ some s =
        row
        ∙ rw e (
            ap some
              (tick_row-waits cal now db_now grace_days fallback db.plans s p c plan within.0)) in
      let (r, q, ps) =
        ticks-waits o s p ts after keyed kept c (ap (λ l. plan_by_id l s.plan_id) plans ∙ plan)
          within.1 in
      (r, q, ps ∙ plans)

  -- A lapsed subscription is followed to the end of its grace period: a tick at `now` marks it past due,
  -- any number of ticks within the grace period leave it so, and the first tick from the end of the grace
  -- period on, at `later`, moves it to the fallback plan if that is on offer and another one, and suspends
  -- it otherwise.
  pub lapse_ends :
      (now db_now later db_later o : ℕ) (between : List (ℕ × ℕ)) (db : BillingDb)
      (s : OrganizationSubscription) (p : BillingPlan)
      → Keyed db.subscriptions
      → row_of db o ≡ some s
      → IsCurrent s
      → plan_by_id db.plans s.plan_id ≡ some p
      → should_mark_past_due cal now (s, p) ≡ true
      → now < db_now + grace_days * day
      → All (λ t. t.0 < db_now + grace_days * day) between
      → db_now + grace_days * day ≤ later
      → row_of (ticks ((now, db_now) ∷ between ++ (later, db_later) ∷ []) db) o
        ≡ some (ended_row db_later fallback db.plans p (past_due_row db_now s))
  lapse_ends now db_now later db_later o between db s p k e c plan m before within after =
      let (row, keyed, plans) = process_tick-row cal now db_now grace_days fallback o db k in
      let first = process_tick cal now db_now grace_days fallback db in
      let marked : row_of first o ≡ some (past_due_row db_now s) =
        row
        ∙ rw e (
            ap some
              (tick_row-lapsed cal now db_now grace_days fallback db.plans s p c plan m before)) in
      let known : plan_by_id first.plans s.plan_id ≡ some p =
        ap (λ l. plan_by_id l s.plan_id) plans ∙ plan in
      let (kept, keyed', plans') =
        ticks-waits o (past_due_row db_now s) p between first keyed marked refl known within in
      let last =
        process_tick-row cal later db_later grace_days fallback o (ticks between first) keyed' in
      ap (λ d. row_of d o) (ticks-append between (later, db_later) first)
      ∙ last.0
      ∙ rw (kept, plans', plans)
          (ap some (
            tick_row-ended cal later db_later grace_days fallback db.plans (past_due_row db_now s) p
              refl plan after))

-- Subscribing again after a suspension does not give access back: the row keeps the period that the
-- suspension closed, so at every later instant the new subscription says "active" and is not active.
pub resubscribe_stays_inactive :
    (fresh db_now o plan now end : ℕ) (trial : Option ℕ) (db : BillingDb)
    (s : OrganizationSubscription)
    → Keyed db.subscriptions
    → row_of db o ≡ some s
    → s.current_period_end ≡ some end
    → end < now
    → (row : OrganizationSubscription) × (row_of
          (upsert_subscription fresh db_now o plan "active" trial db).1
          o
        ≡ some row)
      × (row.status ≡ "active")
      × (is_active row now ≡ false)
unfolding is_active
resubscribe_stays_inactive fresh db_now o plan now end trial db s k e p h = (
  upserted_row db_now plan "active" trial s,
  (upsert-Changes fresh db_now o plan "active" trial s db k e).rows o ∙ rw (e, ==_refl),
  refl,
  rw p (rw (lt→ltb _ _ h)),
)
