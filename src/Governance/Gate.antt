-- ===== src/Governance/Gate.antt =====
-- When `ensure_promotion_ready` of backend/src/governance/engine.rs lets a placement through.
use mcp_host.Prelude.{
  ◌≤◌, ◌<◌, ◌≡◌, refl, subst, true, false, ◌&&◌, ◌||◌, Option, none, some, List, [], ◌∷◌, String,
  ◌==◌, ltb, if◌then◌else◌, select, insert_by, order_by, All, In, All-In, In-select, select-In, ◌⊎◌,
  inl, inr, Bool-cases, Option-cases, arith,
}
use mcp_host.Trust.Outcome.{first}
use mcp_host.Promotions.Signals.{
  PromotionStatus, scheduled, in_progress, approved, active, rolled_back, ArtifactPromotion,
  PromotionDb,
}
use mcp_host.Governance.Runs.{is_active}
use mcp_host.Governance.Ready.{
  rank, ready_before, of_digest, ready_row, eq_ignore_ascii_case, ensure_promotion_ready,
}

abbrev lead : ArtifactPromotion → Option ArtifactPromotion → ArtifactPromotion
lead p none = p
lead p (some q) = if ready_before q p then q else p

first-insert_by :
    (p : ArtifactPromotion) (ps : List ArtifactPromotion)
    → first (insert_by ready_before p ps) ≡ some (lead p (first ps))
first-insert_by p [] = refl
first-insert_by p (q ∷ qs) = elim (Bool-cases (ready_before q p)) [
  | inl e ↦ rw e refl
  | inr e ↦ rw e refl
]

-- Nothing comes before the first row.
abbrev First : ArtifactPromotion → List ArtifactPromotion → Type 0
First p ps = In p ps × All (λ q. ready_before q p ≡ false) ps

asymmetric : (p q : ArtifactPromotion) → ready_before p q ≡ true → ready_before q p ≡ false
asymmetric p q h = ground arith

irreflexive : (p : ArtifactPromotion) → ready_before p p ≡ false
irreflexive p = ground arith

negative :
    (p q r : ArtifactPromotion)
    → ready_before p q ≡ false
    → ready_before q r ≡ false
    → ready_before p r ≡ false
negative p q r h k = ground arith

first-First :
    (ps : List ArtifactPromotion) (p : ArtifactPromotion)
    → first (order_by ready_before ps) ≡ some p
    → First p ps
first-First [] p h = cc
first-First (q ∷ qs) p h = elim (Option-cases (first (order_by ready_before qs))) [
  | inl n ↦
      let same : q ≡ p = cc (rw n at rw (first-insert_by q (order_by ready_before qs)) at h) in
      becomes same (inl refl, (irreflexive q, alone qs q n))
  | inr (r, s) ↦
      let (i, a) = first-First qs r s in
      let led : lead q (some r) ≡ p =
        some-inj (rw s at rw (first-insert_by q (order_by ready_before qs)) at h) in
      elim (Bool-cases (ready_before r q)) [
        | inl e ↦ let same : r ≡ p = rw e at led in becomes same (inr i, (asymmetric r q e, a))
        | inr e ↦
            let same : q ≡ p = rw e at led in
            becomes same (inl refl, (irreflexive q, behind qs r q a e))
      ]
]
  where
    becomes : {a : ArtifactPromotion} → a ≡ p → First a (q ∷ qs) → First p (q ∷ qs)
    becomes e t = subst (λ x. First x (q ∷ qs)) e t

    some-inj : {a b : ArtifactPromotion} → some a ≡ some b → a ≡ b
    some-inj e = cc

    alone :
        (qs : List ArtifactPromotion) (q : ArtifactPromotion)
        → first (order_by ready_before qs) ≡ none
        → All (λ x. ready_before x q ≡ false) qs
    alone [] q n = tt
    alone (r ∷ rs) q n = cc (rw (first-insert_by r (order_by ready_before rs)) at n)

    behind :
        (qs : List ArtifactPromotion) (r q : ArtifactPromotion)
        → All (λ x. ready_before x r ≡ false) qs
        → ready_before r q ≡ false
        → All (λ x. ready_before x q ≡ false) qs
    behind [] r q a e = tt
    behind (x ∷ xs) r q a e = (negative x r q a.0 e, behind xs r q a.1 e)

first_exists :
    (ps : List ArtifactPromotion) (p : ArtifactPromotion)
    → In p ps
    → (q : ArtifactPromotion) × (first (order_by ready_before ps) ≡ some q)
first_exists [] p i = absurd i.1
first_exists (q ∷ qs) p i = (_, first-insert_by q (order_by ready_before qs))

active_of : (s : PromotionStatus) → is_active s ≡ true → s ≡ active
active_of active h = refl
active_of scheduled h = cc
active_of in_progress h = cc
active_of approved h = cc
active_of rolled_back h = cc

-- Of a row that comes first, and another that is active.
first_active :
    (p q : ArtifactPromotion)
    → ready_before q p ≡ false
    → q.status ≡ active
    → (rank p.status ≡ 0) × (q.updated_at ≤ p.updated_at)
first_active p q h a = first_at (rw a at h)
  where
    first_at :
        ltb 0 (rank p.status) || (0 == rank p.status) && ltb p.updated_at q.updated_at ≡ false
        → (rank p.status ≡ 0) × (q.updated_at ≤ p.updated_at)
    first_at h = (ground arith, ground arith)

rank_zero : (s : PromotionStatus) → rank s ≡ 0 → s ≡ active
rank_zero active h = refl
rank_zero scheduled h = absurd (omega arith)
rank_zero in_progress h = absurd (omega arith)
rank_zero approved h = absurd (omega arith)
rank_zero rolled_back h = absurd (omega arith)

-- A promotion of the digest, on a track of the tier, that is active.
pub record Live (db : PromotionDb) (digest tier : String) (p : ArtifactPromotion) : Type 0 where
  pub stands : In p db.promotions
  pub of_both : of_digest db digest tier p ≡ true
  pub live : p.status ≡ active

module _ (db : PromotionDb) (digest tier : String) where
  abbrev rows : List ArtifactPromotion
  rows = select (of_digest db digest tier) db.promotions

  no_later :
      (p : ArtifactPromotion)
      → p.status ≡ active
      → All (λ q. ready_before q p ≡ false) rows
      → (q : ArtifactPromotion) → Live db digest tier q
      → q.updated_at ≤ p.updated_at
  no_later p a before q l =
      (first_active p q
        (All-In (λ x. ready_before x p ≡ false) rows q before
          (select-In (of_digest db digest tier) db.promotions q l.of_both l.stands))
        l.live).1

  -- Where the row's evaluation is satisfied, the row is active at the tier's stage.
  pub ensure_promotion_ready-Live :
      (ensure_promotion_ready (some digest) (some tier) db).satisfied ≡ true
      → (p : ArtifactPromotion) × Live db digest tier p
        × (eq_ignore_ascii_case p.stage tier ≡ true)
        × ((q : ArtifactPromotion) → Live db digest tier q → q.updated_at ≤ p.updated_at)
  unfolding ensure_promotion_ready ready_row
  ensure_promotion_ready-Live h = elim (Option-cases (first (order_by ready_before rows))) [
    | inl n ↦ cc (rw (n, ensure_promotion_ready) at h)
    | inr (p, s) ↦
        let both : eq_ignore_ascii_case p.stage tier && is_active p.status ≡ true =
          rw (s, ensure_promotion_ready) at h in
        let (i, a) = first-First rows p s in
        let (t, j) = In-select (of_digest db digest tier) db.promotions p i in
        let on : is_active p.status ≡ true = ground (arith, both) in
        let live = active_of p.status on in
        (
          p,
          record { stands = j; of_both = t; live = live },
          ground (arith, both),
          no_later p live a,
        )
  ]

  -- An active promotion at the tier's stage that every other active one, if it is at another stage, is
  -- older than.
  pub ensure_promotion_ready-newest :
      (p : ArtifactPromotion)
      → Live db digest tier p
      → eq_ignore_ascii_case p.stage tier ≡ true
      → ((q : ArtifactPromotion)
          → Live db digest tier q
          → (eq_ignore_ascii_case q.stage tier ≡ true) ⊎ (q.updated_at < p.updated_at))
      → (ensure_promotion_ready (some digest) (some tier) db).satisfied ≡ true
  unfolding ensure_promotion_ready ready_row
  ensure_promotion_ready-newest p l at_stage older =
      let listed = select-In (of_digest db digest tier) db.promotions p l.of_both l.stands in
      let (q, s) = first_exists rows p listed in
      let (i, a) = first-First rows q s in
      let (t, j) = In-select (of_digest db digest tier) db.promotions q i in
      let (zero_rank, later) =
        first_active q p (All-In (λ x. ready_before x q ≡ false) rows p a listed) l.live in
      let live = rank_zero q.status zero_rank in
      let stage : eq_ignore_ascii_case q.stage tier ≡ true =
        elim (older q (record { stands = j; of_both = t; live = live })) [
          | inl e ↦ e
          | inr lt ↦ absurd (omega (arith, later, lt))
        ] in
      rw (s, ensure_promotion_ready) (rw stage (rw live refl))
