-- ===== src/Governance/Started.antt =====
-- What `start_workflow_run` of backend/src/governance/engine.rs writes and answers.
use mcp_host.Prelude.{
  ℕ, suc, ◌≡◌, ◌≢◌, refl, true, false, ◌&&◌, Option, none, some, List, [], ◌∷◌, map, ◌==◌, ==_iff,
  ==_refl, ltb, find, any, select, order_by, All, find-some, In-any, find_fresh, select_none,
  select-append, any_weaken, ◌⊎◌, inl, inr, Bool-cases, Option-cases, Result, ok, err, arith,
}
use mcp_host.Governance.Models.{
  GovernanceWorkflow, GovernanceWorkflowStep, StartWorkflowRunRequest, GovernanceRunDetail,
  GovernanceDb, pending, waiting,
}
use mcp_host.Governance.Runs.{
  GovernanceError, not_found, forbidden, set_governance, owned_workflow, own_run, by_id,
  step_detail, detail_of, steps_of, step_run_rows, run_row, ordered_steps, insert_run,
  fetch_run_detail, start_workflow_run,
}
use mcp_host.Promotions.Signals.{PromotionDb}

-- Step runs that are inserted together are in order already.
order_by-step_run_rows :
    (k run : ℕ) (ss : List GovernanceWorkflowStep)
    → order_by by_id (step_run_rows k run ss) ≡ step_run_rows k run ss
order_by-step_run_rows k run [] = refl
order_by-step_run_rows k run (s ∷ []) = refl
order_by-step_run_rows k run (s ∷ t ∷ ts) =
    let later : ltb (suc k) k ≡ false = ground arith in
    rw (order_by-step_run_rows (suc k) run (t ∷ ts)) (rw later refl)

select-step_run_rows :
    (k run : ℕ) (ss : List GovernanceWorkflowStep)
    → select (λ r. r.workflow_run_id == run) (step_run_rows k run ss) ≡ step_run_rows k run ss
select-step_run_rows k run [] = refl
select-step_run_rows k run (s ∷ ss) =
    rw (==_refl run) (rw (select-step_run_rows (suc k) run ss) refl)

map-step_run_rows :
    (g : GovernanceDb) (k run : ℕ) (ss : List GovernanceWorkflowStep)
    → (map (λ d. d.step_id) (map (step_detail g) (step_run_rows k run ss))
        ≡ map (λ s. some s.id) ss)
      × All (λ d. d.status ≡ waiting) (map (step_detail g) (step_run_rows k run ss))
map-step_run_rows g k run [] = (refl, tt)
map-step_run_rows g k run (s ∷ ss) =
    let (e, a) = map-step_run_rows g (suc k) run ss in (rw e refl, (refl, a))

module _ (db_now next_run next_step workflow owner : ℕ) (q : StartWorkflowRunRequest)
    (db : PromotionDb) where
  -- The number of the run is new.
  pub record NewRun : Type 0 where
    pub no_run : any (λ r. r.id == next_run) db.governance.workflow_runs ≡ false
    pub no_step : any (λ r. r.workflow_run_id == next_run) db.governance.step_runs ≡ false

  abbrev result : Result GovernanceRunDetail GovernanceError × PromotionDb
  result = start_workflow_run db_now next_run next_step workflow owner q db

  abbrev looked_up : Option GovernanceWorkflow
  looked_up = find (λ w. w.id == workflow) db.governance.workflows

  -- What a run that was started looks like to its owner.
  pub record Started (w : GovernanceWorkflow) (d : GovernanceRunDetail) : Type 0 where
    pub number : d.id ≡ next_run
    pub of_workflow : d.workflow_id ≡ workflow
    pub status : d.status ≡ pending
    pub tier : d.target_tier ≡ w.tier
    pub digest : d.target_manifest_digest ≡ q.target_manifest_digest
    pub steps :
        map (λ s. s.step_id) d.steps ≡ map (λ s. some s.id) (ordered_steps db.governance w.id)
    pub waiting_steps : All (λ s. s.status ≡ waiting) d.steps

  module _ (fresh : NewRun) (w : GovernanceWorkflow) (found : looked_up ≡ some w)
      (own : w.owner_id ≡ owner) where
    abbrev pub after : GovernanceDb
    after = insert_run db_now next_run next_step owner w q db.governance

    number : w.id ≡ workflow
    number = (==_iff _ _).0 (find-some _ db.governance.workflows w found).0

    owned : owned_workflow after owner w.id ≡ true
    owned =
        In-any (λ v. (v.id == w.id) && (v.owner_id == owner)) db.governance.workflows w
          (find-some _ db.governance.workflows w found).1
          (rw (==_refl w.id) (rw own (==_refl owner)))

    pub the_run :
        find (own_run after owner next_run) after.workflow_runs
        ≡ some (run_row db_now next_run owner w q)
    the_run =
        find_fresh (own_run after owner next_run) db.governance.workflow_runs _
          (any_weaken (own_run after owner next_run) (λ r. r.id == next_run)
            db.governance.workflow_runs (λ r t. ground arith) fresh.no_run)
          (rw (==_refl next_run) owned)

    the_steps :
        steps_of after next_run
        ≡ map
            (step_detail after)
            (step_run_rows next_step next_run (ordered_steps db.governance w.id))
    the_steps =
        rw
          (select-append (λ r. r.workflow_run_id == next_run) db.governance.step_runs
            (step_run_rows next_step next_run (ordered_steps db.governance w.id)))
          (rw
            (select_none (λ r. r.workflow_run_id == next_run) db.governance.step_runs fresh.no_step)
            (rw (select-step_run_rows next_step next_run (ordered_steps db.governance w.id)) (
              rw (order_by-step_run_rows next_step next_run (ordered_steps db.governance w.id))
                refl)))

    pub started :
        (d : GovernanceRunDetail) × (fetch_run_detail next_run owner after ≡ ok d) × Started w d
    unfolding fetch_run_detail
    started =
        let (ids, statuses) =
          map-step_run_rows after next_step next_run (ordered_steps db.governance w.id) in
        (
          detail_of after (run_row db_now next_run owner w q),
          rw (the_run, fetch_run_detail) refl,
          record {
            number = refl;
            of_workflow = number;
            status = refl;
            tier = refl;
            digest = refl;
            steps = rw the_steps ids;
            waiting_steps = rw the_steps statuses;
          },
        )

  -- A start is refused and writes nothing where no workflow has the number, or where its owner is another
  -- user. Otherwise, if the run's number is new, the answer is the run's detail: pending, of the workflow,
  -- its tier and the requested digest, with one waiting step run for each step of the workflow in the
  -- order of their positions.
  pub start_workflow_run-Started :
      NewRun
      → ((looked_up ≡ none) × (result ≡ (err not_found, db)))
        ⊎ ((w : GovernanceWorkflow) × (looked_up ≡ some w)
            × (w.owner_id ≢ owner)
            × (result ≡ (err forbidden, db)))
        ⊎ ((w : GovernanceWorkflow) × (d : GovernanceRunDetail) × (looked_up ≡ some w)
            × (w.owner_id ≡ owner)
            × (result ≡ (
              ok d,
              set_governance (insert_run db_now next_run next_step owner w q db.governance) db,
            ))
            × Started w d)
  unfolding start_workflow_run
  start_workflow_run-Started fresh = elim (Option-cases looked_up) [
    | inl n ↦ inl (n, rw (n, start_workflow_run) refl)
    | inr (w, s) ↦ elim (Bool-cases (w.owner_id == owner)) [
      | inl e ↦
          let own : w.owner_id ≡ owner = (==_iff _ _).0 e in
          let (d, answer, looks) = started fresh w s own in
          inr (inr (w, d, s, own, rw (s, start_workflow_run) (rw e (rw answer refl)), looks))
      | inr e ↦ inr (inl (w, s, λ same. ground arith, rw (s, start_workflow_run) (rw e refl)))
    ]
  ]
