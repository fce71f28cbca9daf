-- ===== src/Governance/Settled.antt =====
-- What `update_run_status` of backend/src/governance/engine.rs leaves behind.
use mcp_host.Prelude.{
  ℕ, ◌≡◌, refl, Bool, true, false, not, ◌&&◌, Option, none, some, List, [], ◌∷◌, ◌++◌, ◌==◌,
  ==_refl, find, select, update_where, All, In, find-some, find-update_where, select-update_where,
  ◌⊎◌, inl, inr, Bool-cases, Option-cases, arith, if◌then◌else◌, Result, ok, err,
}
use mcp_host.Governance.Models.{
  GovernanceRunStatus, pending, running, completed, failed, cancelled, GovernanceStepStatus,
  waiting, step_running, step_completed, step_failed, blocked, RunStatusUpdateRequest, WorkflowRun,
  StepRun, AuditLog,
}
use mcp_host.Governance.Runs.{own_run}
use mcp_host.Sql.{SqlError}
use mcp_host.Governance.Status.{
  names_place, refused, sync_promotion_status, moved, uncompleted, unended, end_step, end_steps,
  log_row, move_run, outcome_of, after_sync, RunTransitionOutcome, update_run_status,
}
use mcp_host.Promotions.Signals.{PromotionDb}

-- The step runs of a run after it has taken a status.
abbrev pub StepsEnded : ℕ → GovernanceRunStatus → List StepRun → List StepRun → Type 0
StepsEnded run completed old new =
    All (λ s. s.workflow_run_id ≡ run → s.status ≡ step_completed) new
StepsEnded run failed old new =
    All (λ s. s.workflow_run_id ≡ run → (s.status ≡ step_completed) ⊎ (s.status ≡ step_failed)) new
StepsEnded run pending old new = new ≡ old
StepsEnded run running old new = new ≡ old
StepsEnded run cancelled old new = new ≡ old

completed_of : (s : GovernanceStepStatus) → uncompleted s ≡ false → s ≡ step_completed
completed_of step_completed h = refl
completed_of waiting h = cc
completed_of step_running h = cc
completed_of step_failed h = cc
completed_of blocked h = cc

ended_of : (s : GovernanceStepStatus) → unended s ≡ false → (s ≡ step_completed) ⊎ (s ≡ step_failed)
ended_of step_completed h = inl refl
ended_of step_failed h = inr refl
ended_of waiting h = cc
ended_of step_running h = cc
ended_of blocked h = cc

module _ (db_now run : ℕ) where
  each_completed :
      (steps : List StepRun)
      → All
          (λ s. s.workflow_run_id ≡ run → s.status ≡ step_completed)
          (update_where
            (λ s. (s.workflow_run_id == run) && uncompleted s.status)
            (end_step db_now step_completed)
            steps)
  each_completed [] = tt
  each_completed (s ∷ ss) = elim (Bool-cases ((s.workflow_run_id == run) && uncompleted s.status)) [
    | inl t ↦ rw t (λ _. refl, each_completed ss)
    | inr t ↦
        rw t
          ((λ same. completed_of s.status (rw (==_refl run) at (rw same at t))), each_completed ss)
  ]

  each_ended :
      (steps : List StepRun)
      → All
          (λ s. s.workflow_run_id ≡ run → (s.status ≡ step_completed) ⊎ (s.status ≡ step_failed))
          (update_where
            (λ s. (s.workflow_run_id == run) && unended s.status)
            (end_step db_now step_failed)
            steps)
  each_ended [] = tt
  each_ended (s ∷ ss) = elim (Bool-cases ((s.workflow_run_id == run) && unended s.status)) [
    | inl t ↦ rw t (λ _. inr refl, each_ended ss)
    | inr t ↦ rw t ((λ same. ended_of s.status (rw (==_refl run) at (rw same at t))), each_ended ss)
  ]

  end_steps-StepsEnded :
      (status : GovernanceRunStatus) (steps : List StepRun)
      → StepsEnded run status steps (end_steps db_now run status steps)
  unfolding end_steps
  end_steps-StepsEnded completed steps = each_completed steps
  end_steps-StepsEnded failed steps = each_ended steps
  end_steps-StepsEnded pending steps = refl
  end_steps-StepsEnded running steps = refl
  end_steps-StepsEnded cancelled steps = refl

  abbrev others : StepRun → Bool
  others s = not (s.workflow_run_id == run)

  apart :
      (test : StepRun → Bool) (s : StepRun)
      → ((s.workflow_run_id == run) && test s) ≡ true
      → (others s ≡ false) × (others s ≡ false)
  apart test s t = ground arith

  end_steps-others :
      (status : GovernanceRunStatus) (steps : List StepRun)
      → select others (end_steps db_now run status steps) ≡ select others steps
  unfolding end_steps
  end_steps-others completed steps =
      select-update_where _ _ others (λ s t. apart (λ r. uncompleted r.status) s t) steps
  end_steps-others failed steps =
      select-update_where _ _ others (λ s t. apart (λ r. unended r.status) s t) steps
  end_steps-others pending steps = refl
  end_steps-others running steps = refl
  end_steps-others cancelled steps = refl

module _ (db_now next_log run owner : ℕ) (payload : RunStatusUpdateRequest) (db : PromotionDb) where
  -- The number is the key of the table of runs.
  abbrev pub OneRun : Type 0
  OneRun =
      (x : WorkflowRun)
      → In x db.governance.workflow_runs
      → x.id ≡ run
      → find (λ r. r.id == run) db.governance.workflow_runs ≡ some x

  abbrev result : Result (Option RunTransitionOutcome) SqlError × PromotionDb
  result = update_run_status db_now next_log run owner payload db

  abbrev pub own : Option WorkflowRun
  own = find (own_run db.governance owner run) db.governance.workflow_runs

  abbrev pub Logged : Type 0
  Logged =
      (l : AuditLog) × (result.1.governance.audit_logs ≡ db.governance.audit_logs ++ l ∷ [])
      × (l.workflow_run_id ≡ run)
      × (l.actor_id ≡ some owner)

  -- What the call leaves behind, of the run's row as it was: with the refusal of the promotion's update,
  -- and without it.
  pub record Settled (r : WorkflowRun) : Type 0 where
    pub outcome :
        result.0 ≡ (if names_place r then err refused else ok (some (outcome_of payload r)))
    pub moved_run :
        find (λ x. x.id == run) result.1.governance.workflow_runs ≡ some (moved db_now payload r)
    pub logged : Logged
    pub left_steps : names_place r ≡ true → result.1.governance.step_runs ≡ db.governance.step_runs
    pub steps :
        names_place r ≡ false
        → StepsEnded run payload.status db.governance.step_runs result.1.governance.step_runs
    pub other_steps :
        select (λ s. not (s.workflow_run_id == run)) result.1.governance.step_runs
        ≡ select (λ s. not (s.workflow_run_id == run)) db.governance.step_runs
    pub tracks : result.1.tracks ≡ db.tracks
    pub promotions : result.1.promotions ≡ db.promotions

  module _ (r : WorkflowRun) (mine : own ≡ some r) (one : OneRun) where
    abbrev written : PromotionDb
    written = record db { governance = move_run db_now next_log run owner payload db.governance }

    accepted : own_run db.governance owner run r ≡ true
    accepted = (find-some _ db.governance.workflow_runs r mine).0

    number : r.id ≡ run
    number = ground (arith, accepted)

    first_run : find (λ x. x.id == run) db.governance.workflow_runs ≡ some r
    first_run = one r (find-some _ db.governance.workflow_runs r mine).1 number

    written_run :
        find (λ x. x.id == run) written.governance.workflow_runs ≡ some (moved db_now payload r)
    written_run =
        find-update_where (own_run db.governance owner run) (moved db_now payload)
          (λ x. x.id == run) (λ y. refl) db.governance.workflow_runs r first_run accepted

    synced :
        sync_promotion_status run written.governance
        ≡ (if names_place r then err refused else ok tt)
    unfolding sync_promotion_status
    synced = rw (written_run, sync_promotion_status) refl

    answered :
        (b : Bool)
        → names_place r ≡ b
        → result
          ≡ after_sync db_now run payload.status
              (outcome_of payload r)
              (if b then err refused else ok tt)
              written
    unfolding update_run_status
    answered b e = rw (mine, update_run_status) (rw number (rw synced (rw e refl)))

    settled : Settled r
    settled = elim (Bool-cases (names_place r)) [
      | inl e ↦
          let after = answered true e in
          record {
            outcome = rw after (rw e refl);
            moved_run = rw after written_run;
            logged = (log_row db_now next_log run owner payload, rw after refl, refl, refl);
            left_steps = λ h. rw after refl;
            steps = λ h. cc;
            other_steps = rw after refl;
            tracks = rw after refl;
            promotions = rw after refl;
          }
      | inr e ↦
          let after = answered false e in
          record {
            outcome = rw after (rw e refl);
            moved_run = rw after written_run;
            logged = (log_row db_now next_log run owner payload, rw after refl, refl, refl);
            left_steps = λ h. cc;
            steps = λ h. rw after (end_steps-StepsEnded db_now run payload.status _);
            other_steps = rw after (end_steps-others db_now run payload.status _);
            tracks = rw after refl;
            promotions = rw after refl;
          }
    ]

  -- Where the caller owns no workflow with a run of the number, the answer is none and nothing is written.
  -- Otherwise, if the number is the run's alone, the run's row has the status and the note, and the audit log
  -- one entry more; the promotions and the step runs of other runs are as they were. Where the run names a
  -- track, a stage and a digest, the call then ends in the database's refusal of the promotion's update, with
  -- all step runs as they were. Where it does not, the answer is the transition, and after `completed` all the
  -- run's step runs are completed, after `failed` each is completed or failed, and else they are as they were.
  pub update_run_status-Settled :
      OneRun
      → ((own ≡ none) × (result ≡ (ok none, db))) ⊎ ((r : WorkflowRun) × (own ≡ some r) × Settled r)
  unfolding update_run_status
  update_run_status-Settled one = elim (Option-cases own) [
    | inl n ↦ inl (n, rw (n, update_run_status) refl)
    | inr (r, s) ↦ inr (r, s, settled r s one)
  ]
