-- ===== src/Billing/Rows.antt =====
-- The subscription of each organization, through the updates of backend/src/billing/service.rs.
use mcp_host.Prelude.{
  ℕ, ◌≡◌, ◌≢◌, refl, sym, ap, ◌∙◌, String, true, false, Option, none, some, List, [], ◌∷◌, arith,
  ◌==◌, ==_iff, if◌then◌else◌, inl, inr, Bool-cases, Option-cases, All, find, latest, update_where,
  ok, err,
}
use mathlib.Core.Option
use mcp_host.Billing.Models.{OrganizationSubscription, BillingPlan, BillingDb}
use mcp_host.Billing.Usage.{plan_not_found}
use mcp_host.Billing.Service.{of_organization, latest_subscription}
use mcp_host.Billing.Subscriptions.{
  update_subscription, mark_subscription_overdue, suspend_subscription, past_due_row, suspended_row,
  downgraded_row, upserted_row, upsert_subscription, active_plan, downgrade_subscription,
}

abbrev pub Rows : Type 0
Rows = List OrganizationSubscription

-- The first subscription of an organization.
abbrev pub row_in : Rows → ℕ → Option OrganizationSubscription
row_in rows o = find (λ s. s.organization_id == o) rows

abbrev pub row_of : BillingDb → ℕ → Option OrganizationSubscription
row_of db o = row_in db.subscriptions o

abbrev pub Differs : OrganizationSubscription → OrganizationSubscription → Type 0
Differs s t = (s.organization_id ≢ t.organization_id) × (s.id ≢ t.id)

-- One subscription for each organization, and no identifier twice.
abbrev pub Keyed : Rows → Type 0
Keyed [] = Unit
Keyed (s ∷ ss) = All (Differs s) ss × Keyed ss

-- A change of a row that leaves its keys alone.
pub record KeepsKeys (f : OrganizationSubscription → OrganizationSubscription) : Type 0 where
  pub organization : (s : OrganizationSubscription) → (f s).organization_id ≡ s.organization_id
  pub identifier : (s : OrganizationSubscription) → (f s).id ≡ s.id

none_of_organization :
    (x : OrganizationSubscription) (o : ℕ) (rows : Rows)
    → x.organization_id ≡ o
    → All (Differs x) rows
    → of_organization o rows ≡ []
unfolding of_organization
none_of_organization x o [] e h = refl
none_of_organization x o (y ∷ ys) e h = ground (arith, none_of_organization x o ys e h.1)

newest_row :
    (o : ℕ) (rows : Rows)
    → Keyed rows
    → latest (λ s. s.updated_at) (of_organization o rows) ≡ row_in rows o
unfolding of_organization
newest_row o [] h = refl
newest_row o (x ∷ xs) h = elim (Bool-cases (x.organization_id == o)) [
  | inl e ↦ rw e (rw (none_of_organization x o xs ((==_iff _ _).0 e) h.0))
  | inr e ↦ rw e (newest_row o xs h.1)
]

-- With one subscription for each organization, the latest one is the one.
pub latest_subscription_of :
    (db : BillingDb) (o : ℕ) → Keyed db.subscriptions → latest_subscription db o ≡ row_of db o
unfolding latest_subscription
latest_subscription_of db o h = newest_row o db.subscriptions h

abbrev update_id : ℕ → (OrganizationSubscription → OrganizationSubscription) → Rows → Rows
update_id id f rows = update_where (λ s. s.id == id) f rows

-- What an update of one organization's row leaves of another's, and makes of its own.
abbrev pub updated :
    ℕ
    → (OrganizationSubscription → OrganizationSubscription)
    → Option OrganizationSubscription
    → ℕ
    → Option OrganizationSubscription
    → Option OrganizationSubscription
updated o f mine o' theirs = if o == o' then Option.map f mine else theirs

module _ (f : OrganizationSubscription → OrganizationSubscription) (k : KeepsKeys f) where
  update_id_none :
      (x : OrganizationSubscription) (id : ℕ) (rows : Rows)
      → x.id ≡ id
      → All (Differs x) rows
      → update_id id f rows ≡ rows
  update_id_none x id [] e h = refl
  update_id_none x id (y ∷ ys) e h = ground (arith, update_id_none x id ys e h.1)

  row-Differs :
      (x s : OrganizationSubscription) (o : ℕ) (rows : Rows)
      → All (Differs x) rows
      → row_in rows o ≡ some s
      → x.id ≢ s.id
  row-Differs x s o [] h e = cc
  row-Differs x s o (y ∷ ys) h e = ground (arith, row-Differs x s o ys h.1)

  row_in-update_id :
      (s : OrganizationSubscription) (o o' : ℕ) (rows : Rows)
      → Keyed rows
      → row_in rows o ≡ some s
      → row_in (update_id s.id f rows) o' ≡ (if o == o' then some (f s) else row_in rows o')
  row_in-update_id s o o' [] h e = cc
  row_in-update_id s o o' (x ∷ xs) h e = elim (Bool-cases (x.organization_id == o)) [
    | inl m ↦ ground (arith, update_id_none x s.id xs, k.organization x, k.organization s)
    | inr m ↦
        ground (arith, row-Differs x s o xs h.0, row_in-update_id s o o' xs h.1, k.organization x)
  ]

  Differs-update_id :
      (x y : OrganizationSubscription) (id : ℕ) (rows : Rows)
      → x.organization_id ≡ y.organization_id
      → x.id ≡ y.id
      → All (Differs x) rows
      → All (Differs y) (update_id id f rows)
  Differs-update_id x y id [] eo ei h = tt
  Differs-update_id x y id (z ∷ zs) eo ei h = (
    elim (z.id == id) as (λ b. Differs y (if b then f z else z)) [
      | true ↦ (λ e. h.0.0 (eo ∙ e ∙ k.organization z), λ e. h.0.1 (ei ∙ e ∙ k.identifier z))
      | false ↦ (λ e. h.0.0 (eo ∙ e), λ e. h.0.1 (ei ∙ e))
    ],
    Differs-update_id x y id zs eo ei h.1,
  )

  Keyed-update_id : (id : ℕ) (rows : Rows) → Keyed rows → Keyed (update_id id f rows)
  Keyed-update_id id [] h = tt
  Keyed-update_id id (x ∷ xs) h = (
    Differs-update_id x (if x.id == id then f x else x) id xs
        (elim (x.id == id) as (λ b. x.organization_id ≡ (if b then f x else x).organization_id) [
          | true ↦ sym (k.organization x)
          | false ↦ refl
        ])
        (elim (x.id == id) as (λ b. x.id ≡ (if b then f x else x).id) [
          | true ↦ sym (k.identifier x)
          | false ↦ refl
        ])
        h.0,
    Keyed-update_id id xs h.1,
  )

  -- The update by identifier answers with the row that it changed.
  find-update_id :
      (s : OrganizationSubscription) (o : ℕ) (rows : Rows)
      → row_in rows o ≡ some s
      → Keyed rows
      → find (λ t. t.id == s.id) (update_id s.id f rows) ≡ some (f s)
  find-update_id s o [] e h = cc
  find-update_id s o (x ∷ xs) e h = elim (Bool-cases (x.organization_id == o)) [
    | inl m ↦ ground (arith, k.identifier s)
    | inr m ↦ ground (arith, row-Differs x s o xs h.0, find-update_id s o xs (rw m at e) h.1)
  ]

KeepsKeys-past_due : (db_now : ℕ) → KeepsKeys (past_due_row db_now)
KeepsKeys-past_due db_now = record { organization = λ s. refl; identifier = λ s. refl }

KeepsKeys-suspended : (db_now : ℕ) → KeepsKeys (suspended_row db_now)
KeepsKeys-suspended db_now = record { organization = λ s. refl; identifier = λ s. refl }

KeepsKeys-downgraded : (db_now plan : ℕ) → KeepsKeys (downgraded_row db_now plan)
KeepsKeys-downgraded db_now plan = record { organization = λ s. refl; identifier = λ s. refl }

-- What an operation does to the rows: it changes the one of `o` by `f`, and keeps the rest, the
-- keys and the plans.
pub record Changes (o : ℕ) (f : OrganizationSubscription → OrganizationSubscription)
    (db db' : BillingDb) : Type 0 where
  pub rows : (o' : ℕ) → row_of db' o' ≡ updated o f (row_of db o) o' (row_of db o')
  pub keyed : Keyed db'.subscriptions
  pub plans : db'.plans ≡ db.plans

module _ (f : OrganizationSubscription → OrganizationSubscription) (k : KeepsKeys f) (o : ℕ)
    (db : BillingDb) (h : Keyed db.subscriptions) where
  Changes-some :
      (s : OrganizationSubscription)
      → row_of db o ≡ some s
      → Changes o f db (update_subscription s.id f db).1
  unfolding update_subscription
  Changes-some s e = record {
    rows = λ o'. ground (arith, row_in-update_id f k s o o' db.subscriptions h e);
    keyed = Keyed-update_id f k s.id db.subscriptions h;
    plans = refl;
  }

  Changes-none : row_of db o ≡ none → Changes o f db db
  Changes-none e = record { rows = λ o'. ground arith; keyed = h; plans = refl }

pub mark-Changes :
    (db_now o : ℕ) (db : BillingDb)
    → Keyed db.subscriptions
    → Changes o (past_due_row db_now) db (mark_subscription_overdue db_now o db).1
unfolding mark_subscription_overdue
mark-Changes db_now o db h =
    rw (latest_subscription_of db o h, mark_subscription_overdue)
      (elim (Option-cases (row_of db o)) [
        | inl e ↦ rw e (Changes-none _ (KeepsKeys-past_due db_now) o db h e)
        | inr (s, e) ↦ rw e (Changes-some _ (KeepsKeys-past_due db_now) o db h s e)
      ])

pub suspend-Changes :
    (db_now o : ℕ) (db : BillingDb)
    → Keyed db.subscriptions
    → Changes o (suspended_row db_now) db (suspend_subscription db_now o db).1
unfolding suspend_subscription
suspend-Changes db_now o db h =
    rw (latest_subscription_of db o h, suspend_subscription)
      (elim (Option-cases (row_of db o)) [
        | inl e ↦ rw e (Changes-none _ (KeepsKeys-suspended db_now) o db h e)
        | inr (s, e) ↦ rw e (Changes-some _ (KeepsKeys-suspended db_now) o db h s e)
      ])

-- A downgrade to a plan that is on offer.
pub downgrade-Changes :
    (db_now o : ℕ) (code : String) (plan : BillingPlan) (db : BillingDb)
    → Keyed db.subscriptions
    → active_plan db.plans code ≡ some plan
    → Changes o (downgraded_row db_now plan.id) db (downgrade_subscription db_now o code db).1
unfolding downgrade_subscription
downgrade-Changes db_now o code plan db h a =
    rw (a, latest_subscription_of db o h, downgrade_subscription)
      (elim (Option-cases (row_of db o)) [
        | inl e ↦ rw e (Changes-none _ (KeepsKeys-downgraded db_now plan.id) o db h e)
        | inr (s, e) ↦ rw e (Changes-some _ (KeepsKeys-downgraded db_now plan.id) o db h s e)
      ])

-- It answers with a row exactly where the organization has a subscription.
pub downgrade_result :
    (db_now o : ℕ) (code : String) (plan : BillingPlan) (db : BillingDb)
    → Keyed db.subscriptions
    → active_plan db.plans code ≡ some plan
    → (downgrade_subscription db_now o code db).0
      ≡ ok (Option.map (downgraded_row db_now plan.id) (row_of db o))
unfolding downgrade_subscription update_subscription
downgrade_result db_now o code plan db h a =
    rw (a, latest_subscription_of db o h, downgrade_subscription)
      (elim (Option-cases (row_of db o)) [
        | inl e ↦ rw e
        | inr (s, e) ↦ rw e (
            ap ok (find-update_id _ (KeepsKeys-downgraded db_now plan.id) s o db.subscriptions e h))
      ])

pub downgrade_missing :
    (db_now o : ℕ) (code : String) (db : BillingDb)
    → active_plan db.plans code ≡ none
    → downgrade_subscription db_now o code db ≡ (err (plan_not_found code), db)
unfolding downgrade_subscription
downgrade_missing db_now o code db a = rw (a, downgrade_subscription)

KeepsKeys-upserted :
    (db_now plan : ℕ) (status : String) (trial : Option ℕ)
    → KeepsKeys (upserted_row db_now plan status trial)
KeepsKeys-upserted db_now plan status trial = record {
  organization = λ s. refl;
  identifier = λ s. refl;
}

-- An upsert for an organization that has a subscription changes that one.
pub upsert-Changes :
    (fresh db_now o plan : ℕ) (status : String) (trial : Option ℕ) (s : OrganizationSubscription)
    (db : BillingDb)
    → Keyed db.subscriptions
    → row_of db o ≡ some s
    → Changes o
        (upserted_row db_now plan status trial)
        db
        (upsert_subscription fresh db_now o plan status trial db).1
unfolding upsert_subscription
upsert-Changes fresh db_now o plan status trial s db h e =
    rw (latest_subscription_of db o h, upsert_subscription)
      (rw e (Changes-some _ (KeepsKeys-upserted db_now plan status trial) o db h s e))
