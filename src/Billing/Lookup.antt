-- ===== src/Billing/Lookup.antt =====
-- `active_subscription` of backend/src/billing/service.rs answers with a row of the table.
use mcp_host.Prelude.{
  ℕ, ◌≡◌, ◌≢◌, refl, sym, ap, Bool, true, false, Option, none, some, List, [], ◌∷◌, arith, ◌==◌,
  ==_refl, if◌then◌else◌, inl, inr, Bool-cases, All, In, select, find, latest, later_of, ltb, ◌⊎◌,
}
use mcp_host.Billing.Models.{OrganizationSubscription, BillingPlan, BillingDb, is_active}
use mcp_host.Billing.Service.{
  joined, plan_by_id, of_organization, if_active, active_subscription, latest_subscription_by_id,
}

-- No identifier twice: the table's primary key.
abbrev pub UniqueIds : List OrganizationSubscription → Type 0
UniqueIds [] = Unit
UniqueIds (s ∷ ss) = All (λ t. s.id ≢ t.id) ss × UniqueIds ss

find_by_id :
    (s : OrganizationSubscription) (rows : List OrganizationSubscription)
    → UniqueIds rows
    → In s rows
    → find (λ t. t.id == s.id) rows ≡ some s
find_by_id s [] h m = absurd m.1
find_by_id s (x ∷ xs) h (inl e) = rw (← e) (rw ==_refl refl)
find_by_id s (x ∷ xs) h (inr m) = ground (arith, find_by_id s xs h.1 m, differs s xs h.0 m)
  where
    differs :
        (s : OrganizationSubscription) (ys : List OrganizationSubscription)
        → All (λ t. x.id ≢ t.id) ys
        → In s ys
        → x.id ≢ s.id
    differs s [] a n = absurd n.1
    differs s (y ∷ ys) a (inl e) = rw e a.0
    differs s (y ∷ ys) a (inr n) = differs s ys a.1 n

later_of-cases {ℓ} :
    {A : Type ℓ} (key : A → ℕ) (a x : A) (o : Option A)
    → later_of key x o ≡ some a
    → (a ≡ x) ⊎ (o ≡ some a)
later_of-cases key a x none e = inl (cc)
later_of-cases key a x (some y) e = elim (Bool-cases (ltb (key x) (key y))) [
  | inl b ↦ inr (rw b at e)
  | inr b ↦ inl (sym (cc (rw b at e)))
]

In-latest {ℓ} : {A : Type ℓ} (key : A → ℕ) (a : A) (l : List A) → latest key l ≡ some a → In a l
In-latest key a [] e = cc
In-latest key a (x ∷ xs) e = elim (later_of-cases key a x (latest key xs) e) [
  | inl h ↦ inl h
  | inr h ↦ inr (In-latest key a xs h)
]

In-select {ℓ} : {A : Type ℓ} (test : A → Bool) (a : A) (l : List A) → In a (select test l) → In a l
In-select test a [] m = m
In-select test a (x ∷ xs) m =
    elim (test x)
        as (λ b. In a (if b then x ∷ select test xs else select test xs) → In a (x ∷ xs)) [
          | true ↦ elim [ inl e ↦ inl e | inr n ↦ inr (In-select test a xs n) ]
          | false ↦ λ n. inr (In-select test a xs n)
        ]
      m

In-joined :
    (plans : List BillingPlan) (s : OrganizationSubscription) (p : BillingPlan)
    (rows : List OrganizationSubscription)
    → In (s, p) (joined plans rows)
    → In s rows
unfolding joined
In-joined plans s p [] m = absurd m.1
In-joined plans s p (x ∷ xs) m =
    elim (plan_by_id plans x.plan_id)
        as (λ o.
          In (s, p) (elim o [ none ↦ joined plans xs | some q ↦ (x, q) ∷ joined plans xs ])
          → In s (x ∷ xs)) [
            | none ↦ λ n. inr (In-joined plans s p xs n)
            | some q ↦ elim [
              | inl e ↦ inl (ap (λ (t : OrganizationSubscription × BillingPlan). t.0) e)
              | inr n ↦ inr (In-joined plans s p xs n)
            ]
          ]
      m

if_active-some :
    (now : ℕ) (r : Option (OrganizationSubscription × BillingPlan))
    (t : OrganizationSubscription × BillingPlan)
    → if_active now r ≡ some t
    → r ≡ some t
if_active-some now none t e = e
if_active-some now (some (s, p)) t e = elim (Bool-cases (is_active s now)) [
  | inl b ↦ rw b at e
  | inr b ↦ cc (rw b at e)
]

-- The active subscription is found under its own identifier.
pub active_subscription-by_id :
    (db : BillingDb) (o now : ℕ) (s : OrganizationSubscription) (p : BillingPlan)
    → UniqueIds db.subscriptions
    → active_subscription db o now ≡ some (s, p)
    → latest_subscription_by_id db s.id ≡ some s
unfolding active_subscription latest_subscription_by_id of_organization
active_subscription-by_id db o now s p h e = find_by_id s db.subscriptions h (
    In-select (λ t. t.organization_id == o) s db.subscriptions
      (In-joined db.plans s p (of_organization o db.subscriptions) (
        In-latest (λ r. r.0.updated_at) (s, p)
          (joined db.plans (of_organization o db.subscriptions)) (if_active-some now _ (s, p) e))))
