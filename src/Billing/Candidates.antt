-- ===== src/Billing/Candidates.antt =====
-- The loops of backend/src/billing/scheduler.rs over joined rows, for any body that changes only the
-- subscription of its own row's organization.
use mathlib.Core.Option
use mcp_host.Prelude.{
  ℕ, ◌≡◌, ◌≢◌, refl, ap, ◌∙◌, Bool, Option, none, some, List, [], ◌∷◌, arith, ◌==◌, ==_iff,
  if◌then◌else◌, inl, inr, Bool-cases, Option-cases, All, select, find,
}
use mcp_host.Billing.Models.{OrganizationSubscription, BillingPlan, BillingDb}
use mcp_host.Billing.Service.{joined, plan_by_id}
use mcp_host.Billing.Rows.{Rows, row_in, row_of, Differs, Keyed, Changes}

abbrev pub Joined : Type 0
Joined = OrganizationSubscription × BillingPlan

abbrev pub row_for : ℕ → List Joined → Option Joined
row_for o rs = find (λ r. r.0.organization_id == o) rs

abbrev Apart : Joined → Joined → Type 0
Apart r t = r.0.organization_id ≢ t.0.organization_id

abbrev pub Distinct : List Joined → Type 0
Distinct [] = Unit
Distinct (r ∷ rs) = All (Apart r) rs × Distinct rs

module _ (plans : List BillingPlan) (q : OrganizationSubscription → Bool) where
  Apart-joined :
      (s : OrganizationSubscription) (p : BillingPlan) (rows : Rows)
      → All (Differs s) rows
      → All (Apart (s, p)) (joined plans (select q rows))
  unfolding joined
  Apart-joined s p [] h = tt
  Apart-joined s p (x ∷ xs) h = elim (Bool-cases (q x)) [
    | inr e ↦ rw e (Apart-joined s p xs h.1)
    | inl e ↦ rw e (elim (Option-cases (plan_by_id plans x.plan_id)) [
      | inl n ↦ rw (n, joined) (Apart-joined s p xs h.1)
      | inr (y, n) ↦ rw (n, joined) (h.0.0, Apart-joined s p xs h.1)
    ])
  ]

  pub joined-Distinct : (rows : Rows) → Keyed rows → Distinct (joined plans (select q rows))
  unfolding joined
  joined-Distinct [] h = tt
  joined-Distinct (x ∷ xs) h = elim (Bool-cases (q x)) [
    | inr e ↦ rw e (joined-Distinct xs h.1)
    | inl e ↦ rw e (elim (Option-cases (plan_by_id plans x.plan_id)) [
      | inl n ↦ rw (n, joined) (joined-Distinct xs h.1)
      | inr (y, n) ↦ rw (n, joined) (Apart-joined x y xs h.0, joined-Distinct xs h.1)
    ])
  ]

  row_for_apart :
      (s : OrganizationSubscription) (o : ℕ) (rows : Rows)
      → s.organization_id ≡ o
      → All (Differs s) rows
      → row_for o (joined plans (select q rows)) ≡ none
  unfolding joined
  row_for_apart s o [] e h = refl
  row_for_apart s o (x ∷ xs) e h = ground (arith, row_for_apart s o xs e h.1)

  abbrev pub candidate : Option OrganizationSubscription → Option Joined
  candidate none = none
  candidate (some s) =
      if q s then elim (plan_by_id plans s.plan_id) [ none ↦ none | some p ↦ some (s, p) ] else none

  -- The loop meets an organization's row if the row passes the filter and has a plan.
  pub row_for-joined :
      (o : ℕ) (rows : Rows)
      → Keyed rows
      → row_for o (joined plans (select q rows)) ≡ candidate (row_in rows o)
  unfolding joined
  row_for-joined o [] h = refl
  row_for-joined o (x ∷ xs) h = elim (Bool-cases (x.organization_id == o)) [
    | inl m ↦ ground (arith, row_for_apart x o xs ((==_iff _ _).0 m) h.0)
    | inr m ↦ ground (arith, row_for-joined o xs h.1)
  ]

abbrev pub run : (Joined → BillingDb → BillingDb) → List Joined → BillingDb → BillingDb
run step [] db = db
run step (r ∷ rs) db = run step rs (step r db)

abbrev pub changed :
    (Joined → OrganizationSubscription → OrganizationSubscription)
    → Option Joined
    → Option OrganizationSubscription
    → Option OrganizationSubscription
changed g none mine = mine
changed g (some r) mine = Option.map (g r) mine

pub record Ran (g : Joined → OrganizationSubscription → OrganizationSubscription) (rs : List Joined)
    (db db' : BillingDb) : Type 0 where
  pub rows : (o : ℕ) → row_of db' o ≡ changed g (row_for o rs) (row_of db o)
  pub keyed : Keyed db'.subscriptions
  pub plans : db'.plans ≡ db.plans

module _ (step : Joined → BillingDb → BillingDb)
    (g : Joined → OrganizationSubscription → OrganizationSubscription) (plans : List BillingPlan)
    (law : (r : Joined) (db : BillingDb)
      → Keyed db.subscriptions
      → db.plans ≡ plans
      → Changes r.0.organization_id (g r) db (step r db)) where
  row_for_head :
      (r : Joined) (rs : List Joined) (o : ℕ)
      → r.0.organization_id ≡ o
      → All (Apart r) rs
      → row_for o rs ≡ none
  row_for_head r [] o e h = refl
  row_for_head r (t ∷ ts) o e h = ground (arith, row_for_head r ts o e h.1)

  pub run-Ran :
      (rs : List Joined) (db : BillingDb)
      → Distinct rs
      → Keyed db.subscriptions
      → db.plans ≡ plans
      → Ran g rs db (run step rs db)
  run-Ran [] db d k p = record { rows = λ o. refl; keyed = k; plans = refl }
  run-Ran (r ∷ rs) db d k p =
      let c : Changes r.0.organization_id (g r) db (step r db) = law r db k p in
      let tail : Ran g rs (step r db) (run step rs (step r db)) =
        run-Ran rs (step r db) d.1 c.keyed (c.plans ∙ p) in
      record {
        rows = λ o. elim (Bool-cases (r.0.organization_id == o)) [
          | inl m ↦
              rw (tail.rows o, row_for_head r rs o ((==_iff _ _).0 m) d.0, c.rows o, m)
                (ap (λ (n : ℕ). Option.map (g r) (row_of db n)) ((==_iff _ _).0 m))
          | inr m ↦ rw (tail.rows o, c.rows o, m)
        ];
        keyed = tail.keyed;
        plans = tail.plans ∙ c.plans;
      }
