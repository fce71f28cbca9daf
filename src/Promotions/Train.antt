-- ===== src/Promotions/Train.antt =====
-- `ReleaseTrain` of backend/src/promotions.rs: the stages of a track, in order.
use mcp_host.Prelude.{
  ℕ, zero, suc, ◌≡◌, ◌≢◌, refl, Bool, true, false, Option, none, some, List, [], ◌∷◌, ◌++◌, String,
  str_eq, eq_iff, eq_refl, to_lowercase, if◌then◌else◌, any, All, ◌⊎◌, inl, inr, Bool-cases,
}

pub record ReleaseTrain : Type 0 where
  pub stages : List String

abbrev default_stages : List String
default_stages = "candidate" ∷ "staging" ∷ "production" ∷ []

abbrev or_default : List String → List String
or_default [] = default_stages
or_default (s ∷ ss) = s ∷ ss

abbrev lower_all : List String → List String
lower_all [] = []
lower_all (s ∷ ss) = to_lowercase s ∷ lower_all ss

-- `ReleaseTrain::new`
unfoldable pub new : List String → ReleaseTrain
new stages = record { stages = lower_all (or_default stages) }

unfoldable pub contains : ReleaseTrain → String → Bool
contains train stage = any (λ item. str_eq item (to_lowercase stage)) train.stages

abbrev after_of : Option ℕ → Option ℕ
after_of none = none
after_of (some n) = some (suc n)

-- `iter().position(...)`
abbrev pub position : String → List String → Option ℕ
position stage [] = none
position stage (s ∷ ss) =
    let rest = position stage ss in if str_eq s stage then some 0 else after_of rest

-- `slice::get`
abbrev pub get_elem? {ℓ} : {A : Type ℓ} → List A → ℕ → Option A
get_elem? [] n = none
get_elem? (x ∷ xs) zero = some x
get_elem? (x ∷ xs) (suc n) = get_elem? xs n

-- `idx.checked_sub(1)`
abbrev pred : ℕ → Option ℕ
pred zero = none
pred (suc n) = some n

abbrev bind {ℓ κ} : {A : Type ℓ} {B : Type κ} → Option A → (A → Option B) → Option B
bind none f = none
bind (some a) f = f a

unfoldable pub previous_stage : ReleaseTrain → String → Option String
previous_stage train stage =
    bind (bind (position (to_lowercase stage) train.stages) pred) (get_elem? train.stages)

train_tests :
    (previous_stage (new []) "Staging" ≡ some "candidate")
    × (previous_stage (new []) "candidate" ≡ none)
    × (previous_stage (new ("Alpha" ∷ "BETA" ∷ "GA" ∷ [])) "GA" ≡ some "beta")
    × (contains (new ("Alpha" ∷ "BETA" ∷ [])) "beta" ≡ true)
unfolding previous_stage new contains to_lowercase
train_tests = (refl, refl, refl, refl)

abbrev before : String → List String → Option String
before k l = bind (bind (position k l) pred) (get_elem? l)

before-cons :
    (k x p : String) (xs : List String)
    → str_eq x k ≡ false
    → before k xs ≡ some p
    → before k (x ∷ xs) ≡ some p
before-cons k x p xs e h = rw e (go (position k xs) h)
  where
    go :
        (o : Option ℕ)
        → bind (bind o pred) (get_elem? xs) ≡ some p
        → bind (bind (after_of o) pred) (get_elem? (x ∷ xs)) ≡ some p
    go none h = cc
    go (some zero) h = cc
    go (some (suc m)) h = h

-- Where a stage stands in a list: first, or right behind the one that `before` finds.
abbrev Placed : String → List String → Type 0
Placed k l =
    ((rest : List String) × (l ≡ k ∷ rest) × (before k l ≡ none))
    ⊎ ((p : String) × (front : List String) × (rest : List String) × (before k l ≡ some p)
        × (l ≡ front ++ p ∷ k ∷ rest)
        × All (λ t. t ≢ k) (front ++ p ∷ []))

differs : (k x : String) → str_eq x k ≡ false → x ≢ k
differs k x e q = let t : str_eq x k ≡ true = (eq_iff x k).1 q in cc

placed : (k : String) (l : List String) → any (λ item. str_eq item k) l ≡ true → Placed k l
placed k [] h = cc
placed k (x ∷ xs) h = elim (Bool-cases (str_eq x k)) [
  | inl e ↦ let same : x ≡ k = (eq_iff x k).0 e in inl (xs, rw same refl, rw e refl)
  | inr e ↦ elim (placed k xs (rw e at h)) [
    | inl (rest, l, n) ↦
        inr (x, [], rest, rw l (rw e (rw (eq_refl k) refl)), rw l refl, (differs k x e, tt))
    | inr (p, front, rest, f, l, a) ↦
        inr (p, x ∷ front, rest, before-cons k x p xs e f, rw l refl, (differs k x e, a))
  ]
]

-- A stage that a train contains is its first, and then has no previous stage; or its previous stage is
-- the one right before its first place in the train. Both in lower case.
pub previous_stage-placed :
    (train : ReleaseTrain) (stage : String)
    → contains train stage ≡ true
    → ((rest : List String) × (train.stages ≡ to_lowercase stage ∷ rest)
        × (previous_stage train stage ≡ none))
      ⊎ ((p : String) × (front : List String) × (rest : List String) × (previous_stage train stage
            ≡ some p)
          × (train.stages ≡ front ++ p ∷ to_lowercase stage ∷ rest)
          × All (λ t. t ≢ to_lowercase stage) (front ++ p ∷ []))
unfolding contains previous_stage
previous_stage-placed train stage h = placed (to_lowercase stage) train.stages h
