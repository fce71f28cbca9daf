-- ===== src/Prelude/Rows.antt =====
-- Lemmas on tables: what a search finds, rows that are appended, and rows that an update keeps.
use mathlib.Core.Path.{◌≡◌, refl, sym, subst}
use mathlib.Core.Bool.{Bool, true, false}
use mathlib.Core.List.{List, [], ◌∷◌, ◌++◌, map}
use mathlib.Core.Option.{none, some}
use mathlib.Core.Logic.{◌⊎◌, inl, inr}
use mcp_host.Prelude.Tests.{Bool-cases}
use mcp_host.Prelude.Lists.{select, find, any, update_where, All, In, insert_by, order_by}

module _ {A : Type 0} (test : A → Bool) where
  -- A row that a search finds passes the test and is in the table.
  pub find-some : (xs : List A) (x : A) → find test xs ≡ some x → (test x ≡ true) × In x xs
  find-some [] x h = cc
  find-some (y ∷ ys) x h = elim (Bool-cases (test y)) [
    | inl e ↦ let same : y ≡ x = cc (rw e at h) in (rw same at e, inl (rw same refl))
    | inr e ↦ let (t, i) = find-some ys x (rw e at h) in (t, inr i)
  ]

  pub find-none : (xs : List A) → find test xs ≡ none → any test xs ≡ false
  find-none [] h = refl
  find-none (y ∷ ys) h = elim (Bool-cases (test y)) [
    | inl e ↦ cc (rw e at h)
    | inr e ↦ rw e (find-none ys (rw e at h))
  ]

  pub In-any : (xs : List A) (x : A) → In x xs → test x ≡ true → any test xs ≡ true
  In-any [] x i t = absurd i.1
  In-any (y ∷ ys) x (inl e) t = rw (sym_at e t) refl
    where
      sym_at : x ≡ y → test x ≡ true → test y ≡ true
      sym_at e t = rw e at t
  In-any (y ∷ ys) x (inr i) t = elim (Bool-cases (test y)) [
    | inl e ↦ rw e refl
    | inr e ↦ rw e (In-any ys x i t)
  ]

  pub find_fresh :
      (xs : List A) (y : A)
      → any test xs ≡ false
      → test y ≡ true
      → find test (xs ++ y ∷ []) ≡ some y
  find_fresh [] y h t = rw t refl
  find_fresh (x ∷ xs) y h t = elim (Bool-cases (test x)) [
    | inl e ↦ cc (rw e at h)
    | inr e ↦ rw e (find_fresh xs y (rw e at h) t)
  ]

  pub select_none : (xs : List A) → any test xs ≡ false → select test xs ≡ []
  select_none [] h = refl
  select_none (x ∷ xs) h = elim (Bool-cases (test x)) [
    | inl e ↦ cc (rw e at h)
    | inr e ↦ rw e (select_none xs (rw e at h))
  ]

  -- A stronger test passes nowhere where a weaker one does not.
  pub any_weaken :
      (weak : A → Bool) (xs : List A)
      → ((x : A) → test x ≡ true → weak x ≡ true)
      → any weak xs ≡ false
      → any test xs ≡ false
  any_weaken weak [] le h = refl
  any_weaken weak (x ∷ xs) le h = elim (Bool-cases (weak x)) [
    | inl e ↦ cc (rw e at h)
    | inr e ↦ elim (Bool-cases (test x)) [
      | inl t ↦ let w : weak x ≡ true = le x t in cc
      | inr t ↦ rw t (any_weaken weak xs le (rw e at h))
    ]
  ]

module _ {A : Type 0} (test : A → Bool) (change : A → A) where
  -- A row that a search finds is found again, changed, after an update that keeps what the search reads.
  pub find-update_where :
      (key : A → Bool)
      → ((y : A) → key (change y) ≡ key y)
      → (xs : List A) (x : A) → find key xs ≡ some x
      → test x ≡ true
      → find key (update_where test change xs) ≡ some (change x)
  find-update_where key keeps [] x h t = cc
  find-update_where key keeps (y ∷ ys) x h t = elim (Bool-cases (key y)) [
    | inl k ↦
        let same : y ≡ x = cc (rw k at h) in rw same (rw t (rw (keeps x) (rw (rw same at k) refl)))
    | inr k ↦ elim (Bool-cases (test y)) [
      | inl u ↦ rw u (rw (keeps y) (rw k (find-update_where key keeps ys x (rw k at h) t)))
      | inr u ↦ rw u (rw k (find-update_where key keeps ys x (rw k at h) t))
    ]
  ]

  -- After an update every row that passes the test is a changed one, if rows that pass it have changed.
  pub update_where-All {κ} :
      (P : A → Type κ)
      → ((y : A) → P (change y))
      → (xs : List A) → All (λ x. test x ≡ true → P x) (update_where test change xs)
  update_where-All P holds [] = tt
  update_where-All P holds (x ∷ xs) = elim (Bool-cases (test x)) [
    | inl t ↦ rw t (λ _. holds x, update_where-All P holds xs)
    | inr t ↦ rw t (λ u. cc, update_where-All P holds xs)
  ]

  -- Rows of another kind are left as they were.
  pub select-update_where :
      (other : A → Bool)
      → ((y : A) → test y ≡ true → (other y ≡ false) × (other (change y) ≡ false))
      → (xs : List A) → select other (update_where test change xs) ≡ select other xs
  select-update_where other apart [] = refl
  select-update_where other apart (x ∷ xs) = elim (Bool-cases (test x)) [
    | inl t ↦ let (o, c) = apart x t in rw t (rw o (rw c (select-update_where other apart xs)))
    | inr t ↦ rw t (rw (select-update_where other apart xs) refl)
  ]

-- A fact of every row, from the one that holds at each.
pub All-map {κ μ} :
    {A : Type 0} {P : A → Type κ} {Q : A → Type μ}
    → ((x : A) → P x → Q x)
    → (xs : List A) → All P xs
    → All Q xs
All-map f [] a = tt
All-map f (x ∷ xs) a = (f x a.0, All-map f xs a.1)

module _ {A : Type 0} (test : A → Bool) (change : A → A) where
  -- A row that passes the test is there, changed, after the update.
  pub update_where-there :
      (xs : List A)
      → any test xs ≡ true
      → (x : A) × (test x ≡ true) × In (change x) (update_where test change xs)
  update_where-there [] h = cc
  update_where-there (y ∷ ys) h = elim (Bool-cases (test y)) [
    | inl t ↦ (y, t, rw t (inl refl))
    | inr t ↦ let (x, u, i) = update_where-there ys (rw t at h) in (x, u, rw t (inr i))
  ]

  -- A row of the updated table is a changed one, or an old one that the test did not pass.
  pub In-update_where :
      (xs : List A) (y : A)
      → In y (update_where test change xs)
      → ((x : A) × (test x ≡ true) × (y ≡ change x)) ⊎ In y xs
  In-update_where [] y i = absurd i.1
  In-update_where (x ∷ xs) y i = elim (Bool-cases (test x)) [
    | inl t ↦ elim (rw t at i) [ inl e ↦ inl (x, t, e) | inr j ↦ later (In-update_where xs y j) ]
    | inr t ↦ elim (rw t at i) [ inl e ↦ inr (inl e) | inr j ↦ later (In-update_where xs y j) ]
  ]
    where
      later :
          ((z : A) × (test z ≡ true) × (y ≡ change z)) ⊎ In y xs
          → ((z : A) × (test z ≡ true) × (y ≡ change z)) ⊎ In y (x ∷ xs)
      later (inl c) = inl c
      later (inr j) = inr (inr j)

module _ {A : Type 0} where
  pub In-appended : (xs : List A) (y : A) → In y (xs ++ y ∷ [])
  In-appended [] y = inl refl
  In-appended (x ∷ xs) y = inr (In-appended xs y)

  pub In-append : (xs : List A) (y x : A) → In x (xs ++ y ∷ []) → In x xs ⊎ (x ≡ y)
  In-append [] y x (inl e) = inr e
  In-append [] y x (inr i) = absurd i.1
  In-append (z ∷ zs) y x (inl e) = inl (inl e)
  In-append (z ∷ zs) y x (inr i) = elim (In-append zs y x i) [ inl j ↦ inl (inr j) | inr e ↦ inr e ]

  -- An update that keeps what a test reads keeps whether a row passes it.
  pub any-update_where :
      (key test : A → Bool) (change : A → A)
      → ((y : A) → key (change y) ≡ key y)
      → (xs : List A) → any key (update_where test change xs) ≡ any key xs
  any-update_where key test change keeps [] = refl
  any-update_where key test change keeps (x ∷ xs) = elim (Bool-cases (test x)) [
    | inl t ↦ rw t (rw (keeps x) (rw (any-update_where key test change keeps xs) refl))
    | inr t ↦ rw t (rw (any-update_where key test change keeps xs) refl)
  ]

pub All-In {ℓ κ} : {A : Type ℓ} (P : A → Type κ) (xs : List A) (x : A) → All P xs → In x xs → P x
All-In P [] x a i = absurd i.1
All-In P (y ∷ ys) x a (inl e) = subst P (sym e) a.0
All-In P (y ∷ ys) x a (inr i) = All-In P ys x a.1 i

module _ {A : Type 0} (test : A → Bool) where
  pub In-select : (xs : List A) (x : A) → In x (select test xs) → (test x ≡ true) × In x xs
  In-select [] x i = absurd i.1
  In-select (y ∷ ys) x i = elim (Bool-cases (test y)) [
    | inl t ↦ elim (rw t at i) [
      | inl e ↦ (rw e t, inl e)
      | inr j ↦ let (u, k) = In-select ys x j in (u, inr k)
    ]
    | inr t ↦ let (u, k) = In-select ys x (rw t at i) in (u, inr k)
  ]

  pub select-In : (xs : List A) (x : A) → test x ≡ true → In x xs → In x (select test xs)
  select-In [] x t i = absurd i.1
  select-In (y ∷ ys) x t (inl e) = let u : test y ≡ true = rw e at t in rw u (inl e)
  select-In (y ∷ ys) x t (inr i) = elim (Bool-cases (test y)) [
    | inl u ↦ rw u (inr (select-In ys x t i))
    | inr u ↦ rw u (select-In ys x t i)
  ]

module _ {A : Type 0} where
  In-insert_by :
      (before : A → A → Bool) (x : A) (ys : List A) (a : A)
      → In a (insert_by before x ys)
      → (a ≡ x) ⊎ In a ys
  In-insert_by before x [] a (inl e) = inl e
  In-insert_by before x [] a (inr i) = absurd i.1
  In-insert_by before x (y ∷ ys) a i = elim (Bool-cases (before y x)) [
    | inl t ↦ elim (rw t at i) [
      | inl e ↦ inr (inl e)
      | inr j ↦ elim (In-insert_by before x ys a j) [ inl e ↦ inl e | inr k ↦ inr (inr k) ]
    ]
    | inr t ↦ rw t at i
  ]

  -- A row of the ordered table is a row of the table.
  pub In-order_by :
      (before : A → A → Bool) (xs : List A) (a : A) → In a (order_by before xs) → In a xs
  In-order_by before [] a i = i
  In-order_by before (x ∷ xs) a i = elim (In-insert_by before x (order_by before xs) a i) [
    | inl e ↦ inl e
    | inr j ↦ inr (In-order_by before xs a j)
  ]

  pub In-map :
      {B : Type 0} (f : A → B) (xs : List A) (b : B)
      → In b (map f xs)
      → (a : A) × In a xs × (b ≡ f a)
  In-map f [] b i = absurd i.1
  In-map f (x ∷ xs) b (inl e) = (x, inl refl, e)
  In-map f (x ∷ xs) b (inr i) = let (a, j, e) = In-map f xs b i in (a, inr j, e)

module _ {A : Type 0} where
  -- What some row passes, some row passes after a row was appended.
  pub any-extended :
      (test : A → Bool) (xs : List A) (y : A) → any test xs ≡ true → any test (xs ++ y ∷ []) ≡ true
  any-extended test [] y h = cc
  any-extended test (x ∷ xs) y h = elim (Bool-cases (test x)) [
    | inl e ↦ rw e refl
    | inr e ↦ rw e (any-extended test xs y (rw e at h))
  ]

  pub All-extended {κ} :
      (P : A → Type κ) (xs : List A) (y : A) → All P xs → P y → All P (xs ++ y ∷ [])
  All-extended P [] y a p = (p, tt)
  All-extended P (x ∷ xs) y a p = (a.0, All-extended P xs y a.1 p)

  pub All-updated {κ} :
      (P : A → Type κ) (test : A → Bool) (change : A → A)
      → ((x : A) → P x → P (change x))
      → (xs : List A) → All P xs
      → All P (update_where test change xs)
  All-updated P test change keeps [] a = tt
  All-updated P test change keeps (x ∷ xs) a = elim (Bool-cases (test x)) [
    | inl e ↦ rw e (keeps x a.0, All-updated P test change keeps xs a.1)
    | inr e ↦ rw e (a.0, All-updated P test change keeps xs a.1)
  ]
