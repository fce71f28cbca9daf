-- ===== src/Marketplace/Changed.antt =====
-- The tables of backend/src/marketplace.rs with one row more or one row changed, and the event of it.
use mcp_host.Prelude.{
  ℕ, ◌≡◌, refl, sym, ap, ◌∙◌, Bool, true, false, [], ◌∷◌, ◌++◌, ◌==◌, ◌&&◌, any, update_where,
  All-map, All-extended, All-updated, any-extended, any-update_where, subst,
}
use mcp_host.Marketplace.Models.{
  ProviderMarketplaceSubmission, ProviderMarketplaceEvaluation, ProviderMarketplacePromotion,
  MarketplaceEvent, MarketDb,
}
use mcp_host.Marketplace.Rows.{has_submission, Traced, Accountable, Grows, Traced-kept, events-kept}

module _ (db : MarketDb) (ev : MarketplaceEvent) (a : Accountable db) where
  pub with_submission :
      (row : ProviderMarketplaceSubmission)
      → (row.posture_vetoed ≡ false) × (row.posture_notes ≡ [])
      → Traced (record db { submissions = db.submissions ++ row ∷ [] }) ev
      → Accountable
          (record db { submissions = db.submissions ++ row ∷ []; events = db.events ++ ev ∷ [] })
  with_submission row clean traced =
      let new : MarketDb = record db { submissions = db.submissions ++ row ∷ [] } in
      let g : Grows db new = record {
        submissions = λ i. any-extended (λ s. s.id == i) db.submissions row;
        has_evaluation = λ i h. h;
        evaluations = λ s i h. h;
        promotions = λ e i h. h;
      } in
      record {
        submissions = All-extended _ db.submissions row a.submissions clean;
        evaluations =
            All-map (λ e x. (g.submissions e.submission_id x.0, x.1, x.2)) db.evaluations
              a.evaluations;
        promotions = a.promotions;
        events = events-kept db new ev g a.events traced;
      }

  pub with_evaluation :
      (row : ProviderMarketplaceEvaluation)
      → (has_submission row.submission_id db ≡ true)
        × (row.posture_vetoed ≡ false)
        × (row.posture_notes ≡ [])
      → Traced (record db { evaluations = db.evaluations ++ row ∷ [] }) ev
      → Accountable
          (record db { evaluations = db.evaluations ++ row ∷ []; events = db.events ++ ev ∷ [] })
  with_evaluation row clean traced =
      let new : MarketDb = record db { evaluations = db.evaluations ++ row ∷ [] } in
      let g : Grows db new = record {
        submissions = λ i h. h;
        has_evaluation = λ i. any-extended (λ e. e.id == i) db.evaluations row;
        evaluations =
            λ s i. any-extended (λ e. (e.id == i) && (e.submission_id == s)) db.evaluations row;
        promotions = λ e i h. h;
      } in
      record {
        submissions = a.submissions;
        evaluations = All-extended _ db.evaluations row a.evaluations clean;
        promotions = All-map (λ p x. g.has_evaluation p.evaluation_id x) db.promotions a.promotions;
        events = events-kept db new ev g a.events traced;
      }

  pub with_promotion :
      (row : ProviderMarketplacePromotion)
      → any (λ e. e.id == row.evaluation_id) db.evaluations ≡ true
      → Traced (record db { promotions = db.promotions ++ row ∷ [] }) ev
      → Accountable
          (record db { promotions = db.promotions ++ row ∷ []; events = db.events ++ ev ∷ [] })
  with_promotion row there traced =
      let new : MarketDb = record db { promotions = db.promotions ++ row ∷ [] } in
      let g : Grows db new = record {
        submissions = λ i h. h;
        has_evaluation = λ i h. h;
        evaluations = λ s i h. h;
        promotions =
            λ e i. any-extended (λ p. (p.id == i) && (p.evaluation_id == e)) db.promotions row;
      } in
      record {
        submissions = a.submissions;
        evaluations = a.evaluations;
        promotions = All-extended _ db.promotions row a.promotions there;
        events = events-kept db new ev g a.events traced;
      }

  -- With an evaluation moved on, which keeps its number, its submission and its posture.
  pub with_evaluation_moved :
      (test : ProviderMarketplaceEvaluation → Bool)
      (change : ProviderMarketplaceEvaluation → ProviderMarketplaceEvaluation)
      → ((e : ProviderMarketplaceEvaluation)
          → ((change e).id ≡ e.id)
            × ((change e).submission_id ≡ e.submission_id)
            × ((change e).posture_vetoed ≡ e.posture_vetoed)
            × ((change e).posture_notes ≡ e.posture_notes))
      → Traced db ev
      → Accountable (record db {
        evaluations = update_where test change db.evaluations;
        events = db.events ++ ev ∷ [];
      })
  with_evaluation_moved test change same traced =
      let new : MarketDb = record db { evaluations = update_where test change db.evaluations } in
      let number : (i : ℕ) (e : ProviderMarketplaceEvaluation)
          → ((change e).id == i) ≡ (e.id == i) =
        λ i e. ap (λ n. n == i) (same e).0 in
      let pair : (s i : ℕ) (e : ProviderMarketplaceEvaluation)
          → (((change e).id == i) && ((change e).submission_id == s))
            ≡ ((e.id == i) && (e.submission_id == s)) =
        λ s i e. rw ((same e).0, (same e).1) refl in
      let g : Grows db new = record {
        submissions = λ i h. h;
        has_evaluation =
            λ i h. any-update_where (λ e. e.id == i) test change (number i) db.evaluations ∙ h;
        evaluations = λ s i h.
            any-update_where (λ e. (e.id == i) && (e.submission_id == s)) test change (pair s i)
              db.evaluations
            ∙ h;
        promotions = λ e i h. h;
      } in
      record {
        submissions = a.submissions;
        evaluations =
            All-updated _ test change
              (λ e x. (
                subst (λ n. has_submission n db ≡ true) (sym (same e).1) x.0,
                (same e).2 ∙ x.1,
                (same e).3 ∙ x.2,
              ))
              db.evaluations a.evaluations;
        promotions = All-map (λ p x. g.has_evaluation p.evaluation_id x) db.promotions a.promotions;
        events = events-kept db new ev g a.events (Traced-kept db new g ev traced);
      }

  pub with_promotion_moved :
      (test : ProviderMarketplacePromotion → Bool)
      (change : ProviderMarketplacePromotion → ProviderMarketplacePromotion)
      → ((p : ProviderMarketplacePromotion)
          → ((change p).id ≡ p.id) × ((change p).evaluation_id ≡ p.evaluation_id))
      → Traced db ev
      → Accountable (record db {
        promotions = update_where test change db.promotions;
        events = db.events ++ ev ∷ [];
      })
  with_promotion_moved test change same traced =
      let new : MarketDb = record db { promotions = update_where test change db.promotions } in
      let pair : (e i : ℕ) (p : ProviderMarketplacePromotion)
          → (((change p).id == i) && ((change p).evaluation_id == e))
            ≡ ((p.id == i) && (p.evaluation_id == e)) =
        λ e i p. rw ((same p).0, (same p).1) refl in
      let g : Grows db new = record {
        submissions = λ i h. h;
        has_evaluation = λ i h. h;
        evaluations = λ s i h. h;
        promotions = λ e i h.
            any-update_where (λ p. (p.id == i) && (p.evaluation_id == e)) test change (pair e i)
              db.promotions
            ∙ h;
      } in
      record {
        submissions = a.submissions;
        evaluations = a.evaluations;
        promotions =
            All-updated _ test change
              (λ p x. subst (λ n. any (λ e. e.id == n) db.evaluations ≡ true) (sym (same p).1) x)
              db.promotions a.promotions;
        events = events-kept db new ev g a.events (Traced-kept db new g ev traced);
      }
