-- ===== src/Billing/Ledger.antt =====
-- The usage ledger as a map from windows to quantities, through `record_usage` of
-- backend/src/billing/service.rs.
use mcp_host.Prelude.{
  ℕ, ◌≡◌, refl, ◌∙◌, Bool, true, false, none, some, List, [], ◌∷◌, ◌++◌, String, arith, ◌==◌,
  str_eq, eq_iff, eq_refl, ◌&&◌, if◌then◌else◌, inl, inr, Bool-cases, Option-cases, find,
  update_where, Result, ok, err, ℤ, pos, ◌+ℤ◌, InI64, checked_add_i64, checked_add_i64-add_i64,
  checked_add_i64-none, add_i64, add_i64_exact, zero-add_ℤ,
}
use mcp_host.Billing.Models.{SubscriptionUsageWindow, BillingDb}
use mcp_host.Billing.Service.{in_window, usage_window}
use mcp_host.Billing.Usage.{BillingError, record_usage, used_of}

-- The quantity used in a window: none is recorded yet where there is no row.
abbrev pub used_in : List SubscriptionUsageWindow → ℕ → String → ℕ × ℕ → ℤ
used_in ledger id key window = used_of (find (in_window id key window) ledger)

unfoldable pub window_used : BillingDb → ℕ → String → ℕ × ℕ → ℤ
window_used db id key window = used_in db.ledger id key window

-- Two names of a window are one.
abbrev pub SameWindow : ℕ → String → ℕ × ℕ → ℕ → String → ℕ × ℕ → Type 0
SameWindow id key w id' key' w' = (id ≡ id') × (key ≡ key') × (w.0 ≡ w'.0) × (w.1 ≡ w'.1)

abbrev pub same_window : ℕ → String → ℕ × ℕ → ℕ → String → ℕ × ℕ → Bool
same_window id key w id' key' w' = id == id' && str_eq key key' && w.0 == w'.0 && w.1 == w'.1

module _ (id : ℕ) (key : String) (w : ℕ × ℕ) (id' : ℕ) (key' : String) (w' : ℕ × ℕ) where
  in_window-same :
      (x : SubscriptionUsageWindow)
      → in_window id key w x ≡ true
      → in_window id' key' w' x ≡ same_window id key w id' key' w'
  unfolding in_window
  in_window-same x h =
      ground (arith, eq_iff x.entitlement_key key, eq_iff x.entitlement_key key', eq_iff key key')

  in_window-other :
      (x : SubscriptionUsageWindow)
      → in_window id key w x ≡ false
      → same_window id key w id' key' w' ≡ true
      → in_window id' key' w' x ≡ false
  unfolding in_window
  in_window-other x h k =
      ground (arith, eq_iff x.entitlement_key key, eq_iff x.entitlement_key key', eq_iff key key')

module _ (id : ℕ) (key : String) (w : ℕ × ℕ) (total : ℤ) (db_now : ℕ) where
  abbrev counted : SubscriptionUsageWindow → SubscriptionUsageWindow
  counted r = record r { used_quantity = total; updated_at = db_now }

  in_window-counted :
      (id' : ℕ) (key' : String) (w' : ℕ × ℕ) (x : SubscriptionUsageWindow)
      → in_window id' key' w' (counted x) ≡ in_window id' key' w' x
  unfolding in_window
  in_window-counted id' key' w' x = refl

  used_in-update_other :
      (id' : ℕ) (key' : String) (w' : ℕ × ℕ) (ledger : List SubscriptionUsageWindow)
      → same_window id key w id' key' w' ≡ false
      → used_in (update_where (in_window id key w) counted ledger) id' key' w'
        ≡ used_in ledger id' key' w'
  used_in-update_other id' key' w' [] e = refl
  used_in-update_other id' key' w' (x ∷ xs) e = elim (Bool-cases (in_window id key w x)) [
    | inl m ↦ ground (
      arith,
      used_in-update_other id' key' w' xs,
      in_window-same id key w id' key' w' x,
      in_window-counted id' key' w' x,
    )
    | inr m ↦ ground (arith, used_in-update_other id' key' w' xs)
  ]

  used_in-update_self :
      (id' : ℕ) (key' : String) (w' : ℕ × ℕ) (ledger : List SubscriptionUsageWindow)
      (u : SubscriptionUsageWindow)
      → find (in_window id key w) ledger ≡ some u
      → same_window id key w id' key' w' ≡ true
      → used_in (update_where (in_window id key w) counted ledger) id' key' w' ≡ total
  used_in-update_self id' key' w' [] u h e = cc
  used_in-update_self id' key' w' (x ∷ xs) u h e = elim (Bool-cases (in_window id key w x)) [
    | inl m ↦ ground (arith, in_window-same id key w id' key' w' x, in_window-counted id' key' w' x)
    | inr m ↦
        ground (arith, used_in-update_self id' key' w' xs u, in_window-other id key w id' key' w' x)
  ]

  -- A recorded total is read back at its own window, and at no other.
  used_in-update :
      (id' : ℕ) (key' : String) (w' : ℕ × ℕ) (ledger : List SubscriptionUsageWindow)
      (u : SubscriptionUsageWindow)
      → find (in_window id key w) ledger ≡ some u
      → used_in (update_where (in_window id key w) counted ledger) id' key' w'
        ≡ (if same_window id key w id' key' w' then total else used_in ledger id' key' w')
  used_in-update id' key' w' ledger u h = elim (Bool-cases (same_window id key w id' key' w')) [
    | inl e ↦ rw e (used_in-update_self id' key' w' ledger u h e)
    | inr e ↦ rw e (used_in-update_other id' key' w' ledger e)
  ]

-- A new row is read back at its own window, where there was none.
used_in-append :
    (id : ℕ) (key : String) (w : ℕ × ℕ) (row : SubscriptionUsageWindow) (id' : ℕ) (key' : String)
    (w' : ℕ × ℕ) (ledger : List SubscriptionUsageWindow)
    → in_window id key w row ≡ true
    → find (in_window id key w) ledger ≡ none
    → used_in (ledger ++ row ∷ []) id' key' w'
      ≡ (if same_window id key w id' key' w' then row.used_quantity else used_in ledger id' key' w')
used_in-append id key w row id' key' w' [] m e =
    rw (in_window-same id key w id' key' w' row m) (ground arith)
used_in-append id key w row id' key' w' (x ∷ xs) m e = elim (Bool-cases (in_window id key w x)) [
  | inl n ↦ ground arith
  | inr n ↦
      ground (
        arith,
        used_in-append id key w row id' key' w' xs m,
        in_window-other id key w id' key' w' x,
      )
]

module _ (fresh db_now id : ℕ) (key : String) (w : ℕ × ℕ) (delta : ℤ) (db : BillingDb) where
  abbrev recorded : Result SubscriptionUsageWindow BillingError × BillingDb
  recorded = record_usage fresh db_now id key w delta db

  -- The row that is inserted where there is none.
  abbrev inserted : SubscriptionUsageWindow
  inserted = record {
    id = fresh;
    subscription_id = id;
    entitlement_key = key;
    window_start = w.0;
    window_end = w.1;
    used_quantity = delta;
    updated_at = db_now;
  }

  inserted-in_window : in_window id key w inserted ≡ true
  unfolding in_window
  inserted-in_window = ground (arith, eq_refl key)

  -- Usage that is recorded adds up: the window holds what it held plus the quantity, as integers, and
  -- every other window holds what it held.
  pub record_usage-window_used :
      (id' : ℕ) (key' : String) (w' : ℕ × ℕ) (u : SubscriptionUsageWindow)
      → recorded.0 ≡ ok u
      → window_used recorded.1 id' key' w' ≡ (
          if same_window id key w id' key' w'
          then window_used db id key w +ℤ delta
          else window_used db id' key' w')
  unfolding record_usage usage_window window_used
  record_usage-window_used id' key' w' u e =
      elim (Option-cases (find (in_window id key w) db.ledger)) [
        | inl n ↦
            rw (n, record_usage, usage_window)
              (rw (zero-add_ℤ delta)
                (used_in-append id key w inserted id' key' w' db.ledger inserted-in_window n))
        | inr (x, n) ↦ elim (Option-cases (checked_add_i64 x.used_quantity delta)) [
          | inl c ↦ absurd (refused x n c)
          | inr (total, c) ↦
              rw (n, record_usage, usage_window)
                (rw c (
                  rw (← (checked_add_i64-add_i64 x.used_quantity delta c).1)
                    (used_in-update id key w total db_now id' key' w' db.ledger x n)))
        ]
      ]
    where
      refused :
          (x : SubscriptionUsageWindow)
          → find (in_window id key w) db.ledger ≡ some x
          → checked_add_i64 x.used_quantity delta ≡ none
          → ⊥
      refused x n c = ground arith

  -- A recording that fails writes nothing.
  pub record_usage_error :
      (x : BillingError)
      → recorded.0 ≡ err x
      → (recorded.1 ≡ db) × ¬ InI64 (window_used db id key w +ℤ delta)
  unfolding record_usage usage_window window_used
  record_usage_error x e = elim (Option-cases (find (in_window id key w) db.ledger)) [
    | inl n ↦ absurd (fresh_window n)
    | inr (u, n) ↦ elim (Option-cases (checked_add_i64 u.used_quantity delta)) [
      | inl c ↦ (refused u n c, rw n (checked_add_i64-none u.used_quantity delta c))
      | inr (total, c) ↦ absurd (fits u n c)
    ]
  ]
    where
      fresh_window : find (in_window id key w) db.ledger ≡ none → ⊥
      fresh_window n = ground arith

      fits :
          (u : SubscriptionUsageWindow) {total : ℤ}
          → find (in_window id key w) db.ledger ≡ some u
          → checked_add_i64 u.used_quantity delta ≡ some total
          → ⊥
      fits u n c = ground arith

      refused :
          (u : SubscriptionUsageWindow)
          → find (in_window id key w) db.ledger ≡ some u
          → checked_add_i64 u.used_quantity delta ≡ none
          → recorded.1 ≡ db
      refused u n c = ground arith

  -- What the database accepted, the program added up without wrapping.
  pub record_usage_exact :
      (u : SubscriptionUsageWindow)
      → InI64 delta
      → recorded.0 ≡ ok u
      → add_i64 (window_used db id key w) delta ≡ window_used db id key w +ℤ delta
  unfolding record_usage usage_window window_used
  record_usage_exact u range e = elim (Option-cases (find (in_window id key w) db.ledger)) [
    | inl n ↦ rw n (add_i64_exact (pos 0) delta (rw zero-add_ℤ range))
    | inr (x, n) ↦ elim (Option-cases (checked_add_i64 x.used_quantity delta)) [
      | inl c ↦ absurd (refused x n c)
      | inr (total, c) ↦
          let sum = checked_add_i64-add_i64 x.used_quantity delta c in rw n (sum.0 ∙ sum.1)
    ]
  ]
    where
      refused :
          (x : SubscriptionUsageWindow)
          → find (in_window id key w) db.ledger ≡ some x
          → checked_add_i64 x.used_quantity delta ≡ none
          → ⊥
      refused x n c = ground arith
