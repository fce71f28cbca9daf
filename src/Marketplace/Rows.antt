-- ===== src/Marketplace/Rows.antt =====
-- Rows of backend/src/marketplace.rs that hang together.
use mcp_host.Prelude.{
  ℕ, ◌≡◌, refl, sym, Bool, true, false, Option, none, some, [], ◌∷◌, ◌++◌, ◌==◌, ==_refl, ==_iff,
  ◌&&◌, find, any, All, All-map, All-extended, find-some, In-any, inl, inr, ok, ok_inj, subst,
  Result-cases, Option-cases,
}
use mcp_host.Marketplace.Models.{
  ProviderMarketplaceSubmission, ProviderMarketplaceEvaluation, ProviderMarketplacePromotion,
  MarketplaceEvent, MarketDb,
}
use mcp_host.Marketplace.Handlers.{fetch_submission, fetch_evaluation, fetch_promotion}

abbrev pub has_submission : ℕ → MarketDb → Bool
has_submission i db = any (λ s. s.id == i) db.submissions

-- The evaluation is one of the submission, and the promotion gate one of the evaluation.
abbrev pub on_submission : ℕ → ℕ → MarketDb → Bool
on_submission s i db = any (λ e. (e.id == i) && (e.submission_id == s)) db.evaluations

abbrev pub on_evaluation : ℕ → ℕ → MarketDb → Bool
on_evaluation e i db = any (λ p. (p.id == i) && (p.evaluation_id == e)) db.promotions

abbrev pub EvaluationOf : MarketDb → ℕ → Option ℕ → Type 0
EvaluationOf db s none = Unit
EvaluationOf db s (some i) = on_submission s i db ≡ true

abbrev pub PromotionOf : MarketDb → Option ℕ → Option ℕ → Type 0
PromotionOf db e none = Unit
PromotionOf db none (some p) = ⊥
PromotionOf db (some e) (some p) = on_evaluation e p db ≡ true

-- The rows that an event names are there and hang together.
abbrev pub Traced : MarketDb → MarketplaceEvent → Type 0
Traced db e =
    (s : ℕ) × (e.submission_id ≡ some s)
    × (has_submission s db ≡ true)
    × EvaluationOf db s e.evaluation_id
    × PromotionOf db e.evaluation_id e.promotion_id

pub record Accountable (db : MarketDb) : Type 0 where
  pub submissions : All (λ s. (s.posture_vetoed ≡ false) × (s.posture_notes ≡ [])) db.submissions
  pub evaluations :
      All
        (λ e.
          (has_submission e.submission_id db ≡ true)
          × (e.posture_vetoed ≡ false)
          × (e.posture_notes ≡ []))
        db.evaluations
  pub promotions : All (λ p. any (λ e. e.id == p.evaluation_id) db.evaluations ≡ true) db.promotions
  pub events : All (Traced db) db.events

-- Rows that are there stay there.
pub record Grows (old new : MarketDb) : Type 0 where
  pub submissions : (i : ℕ) → has_submission i old ≡ true → has_submission i new ≡ true
  pub has_evaluation :
      (i : ℕ)
      → any (λ e. e.id == i) old.evaluations ≡ true
      → any (λ e. e.id == i) new.evaluations ≡ true
  pub evaluations : (s i : ℕ) → on_submission s i old ≡ true → on_submission s i new ≡ true
  pub promotions : (e i : ℕ) → on_evaluation e i old ≡ true → on_evaluation e i new ≡ true

EvaluationOf-kept :
    (old new : MarketDb)
    → Grows old new
    → (s : ℕ) (e : Option ℕ) → EvaluationOf old s e
    → EvaluationOf new s e
EvaluationOf-kept old new g s none t = tt
EvaluationOf-kept old new g s (some i) t = g.evaluations s i t

PromotionOf-kept :
    (old new : MarketDb)
    → Grows old new
    → (e p : Option ℕ) → PromotionOf old e p
    → PromotionOf new e p
PromotionOf-kept old new g e none t = tt
PromotionOf-kept old new g none (some p) t = t
PromotionOf-kept old new g (some e) (some p) t = g.promotions e p t

pub Traced-kept :
    (old new : MarketDb) → Grows old new → (e : MarketplaceEvent) → Traced old e → Traced new e
Traced-kept old new g e (s, same, there, ev, pr) = (
  s,
  same,
  g.submissions s there,
  EvaluationOf-kept old new g s e.evaluation_id ev,
  PromotionOf-kept old new g e.evaluation_id e.promotion_id pr,
)

-- The events of the old rows and one more.
pub events-kept :
    (old new : MarketDb) (e : MarketplaceEvent)
    → Grows old new
    → All (Traced old) old.events
    → Traced new e
    → All (Traced new) (old.events ++ e ∷ [])
events-kept old new e g a t =
    All-extended (Traced new) old.events e (All-map (Traced-kept old new g) old.events a) t

both : (a b : Bool) → (a && b) ≡ true → (a ≡ true) × (b ≡ true)
both true true e = (refl, refl)
both true false e = cc
both false b e = cc

pub fetch_submission-there :
    (provider submission : ℕ) (db : MarketDb) (s : ProviderMarketplaceSubmission)
    → fetch_submission provider submission db ≡ ok s
    → (s.id ≡ submission) × (s.provider_id ≡ provider) × (has_submission s.id db ≡ true)
unfolding fetch_submission
fetch_submission-there provider submission db s e =
    elim (Option-cases
      (find (λ x. (x.id == submission) && (x.provider_id == provider)) db.submissions)) [
        | inl n ↦ cc (rw (n, fetch_submission) at e)
        | inr (x, f) ↦
            let same : x ≡ s = ok_inj (rw (f, fetch_submission) at e) in
            let (t, i) = find-some _ db.submissions x f in
            let (a, b) = both _ _ t in
            subst
              (λ y.
                (y.id ≡ submission) × (y.provider_id ≡ provider) × (has_submission y.id db ≡ true))
              same
              (
                (==_iff x.id submission).0 a,
                (==_iff x.provider_id provider).0 b,
                In-any (λ y. y.id == x.id) db.submissions x i (==_refl x.id),
              )
      ]

-- The evaluation that is found is one of the submission that is found with it.
pub fetch_evaluation-there :
    (provider evaluation : ℕ) (db : MarketDb) (e : ProviderMarketplaceEvaluation)
    (s : ProviderMarketplaceSubmission)
    → fetch_evaluation provider evaluation db ≡ ok (e, s)
    → (has_submission s.id db ≡ true)
      × (s.provider_id ≡ provider)
      × (on_submission s.id e.id db ≡ true)
      × (any (λ x. x.id == e.id) db.evaluations ≡ true)
      × (e.id ≡ evaluation)
unfolding fetch_evaluation
fetch_evaluation-there provider evaluation db e s h =
    elim (Option-cases (find (λ x. x.id == evaluation) db.evaluations)) [
      | inl n ↦ cc (rw (n, fetch_evaluation) at h)
      | inr (x, f) ↦ elim (Result-cases (fetch_submission provider x.submission_id db)) [
        | inr (m, g) ↦ cc (rw g at rw (f, fetch_evaluation) at h)
        | inl (y, g) ↦
            let same = ok_inj (rw g at rw (f, fetch_evaluation) at h) in
            let (a, b, there) = fetch_submission-there provider x.submission_id db y g in
            let (t, i) = find-some _ db.evaluations x f in
            subst
              (λ p.
                (has_submission p.1.id db ≡ true)
                × (p.1.provider_id ≡ provider)
                × (on_submission p.1.id p.0.id db ≡ true)
                × (any (λ z. z.id == p.0.id) db.evaluations ≡ true)
                × (p.0.id ≡ evaluation))
              same
              (
                there,
                b,
                In-any (λ z. (z.id == x.id) && (z.submission_id == y.id)) db.evaluations x i
                    (rw (==_refl x.id) ((==_iff x.submission_id y.id).1 (sym a))),
                In-any (λ z. z.id == x.id) db.evaluations x i (==_refl x.id),
                (==_iff x.id evaluation).0 t,
              )
      ]
    ]

pub fetch_promotion-there :
    (provider promotion : ℕ) (db : MarketDb) (p : ProviderMarketplacePromotion)
    (e : ProviderMarketplaceEvaluation) (s : ProviderMarketplaceSubmission)
    → fetch_promotion provider promotion db ≡ ok (p, e, s)
    → (has_submission s.id db ≡ true)
      × (on_submission s.id e.id db ≡ true)
      × (on_evaluation e.id p.id db ≡ true)
unfolding fetch_promotion
fetch_promotion-there provider promotion db p e s h =
    elim (Option-cases (find (λ x. x.id == promotion) db.promotions)) [
      | inl n ↦ cc (rw (n, fetch_promotion) at h)
      | inr (x, f) ↦ elim (Result-cases (fetch_evaluation provider x.evaluation_id db)) [
        | inr (m, g) ↦ cc (rw g at rw (f, fetch_promotion) at h)
        | inl ((y, z), g) ↦
            let same = ok_inj (rw g at rw (f, fetch_promotion) at h) in
            let (there, b, on, i, number) =
              fetch_evaluation-there provider x.evaluation_id db y z g in
            let (t, j) = find-some _ db.promotions x f in
            subst
              (λ q.
                (has_submission q.2.id db ≡ true)
                × (on_submission q.2.id q.1.id db ≡ true)
                × (on_evaluation q.1.id q.0.id db ≡ true))
              same
              (
                there,
                on,
                In-any (λ q. (q.id == x.id) && (q.evaluation_id == y.id)) db.promotions x j
                    (rw (==_refl x.id) ((==_iff x.evaluation_id y.id).1 (sym number))),
              )
      ]
    ]
