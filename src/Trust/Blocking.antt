-- ===== src/Trust/Blocking.antt =====
-- When the placement gate of backend/src/policy/trust.rs blocks a server.
use mcp_host.Prelude.{
  ℕ, ◌≡◌, refl, ap, ◌∙◌, Bool, true, false, not, ◌||◌, ◌&&◌, Option, none, some, [], String, arith,
  str_eq, leb, inl, inr, Bool-cases, ℤ,
}
use mcp_host.Remediation.Runs.{RuntimeVmRemediationRun, RunTable}
use mcp_host.Trust.Tables.{VmInstance, RuntimeVmTrustRegistryState}
use mcp_host.Trust.Outcome.{option_map, and_then}
use mcp_host.Trust.Gate.{
  RemediationFailureSummary, Findings, note_some, check_lifecycle, lifecycle_blocks, check_attempts,
  check_run, class_blocks, check_deadline, note_completed, check_failure, check_context,
  registry_findings, gate_context, awaits, is_none, last_failure_of,
}

abbrev pub holds_for {ℓ} : {A : Type ℓ} → (A → Bool) → Option A → Bool
holds_for test none = false
holds_for test (some a) = test a

-- The deadline has passed.
unfoldable pub expired : (now : ℕ) → Option RuntimeVmTrustRegistryState → Bool
expired now registry = holds_for (λ d. leb d now) (and_then registry (λ r. r.freshness_deadline))

-- The causes that stop a placement of a VM without a run in flight: a passed deadline, a lifecycle in which
-- the VM is set apart, and a last run that failed for a reason other than its cancellation.
unfoldable pub must_block : (now : ℕ) → RunTable → Option RuntimeVmTrustRegistryState → ℕ → Bool
must_block now runs registry instance =
    expired now registry
    || holds_for lifecycle_blocks (option_map (λ r. r.lifecycle_state) registry)
    || holds_for (λ s. class_blocks s.classification) (last_failure_of runs instance)

or_false : (b : Bool) → (b || false) ≡ b
or_false true = refl
or_false false = refl

note_some-blocked :
    (label : String) (o : Option String) (f : Findings)
    → ((note_some label o f).blocked ≡ f.blocked) × ((note_some label o f).stale ≡ f.stale)
note_some-blocked label none f = (refl, refl)
note_some-blocked label (some s) f = (refl, refl)

check_lifecycle-blocked :
    (o : Option String) (f : Findings)
    → ((check_lifecycle o f).blocked ≡ (holds_for lifecycle_blocks o || f.blocked))
      × ((check_lifecycle o f).stale ≡ f.stale)
check_lifecycle-blocked none f = (refl, refl)
check_lifecycle-blocked (some s) f = elim (Bool-cases (lifecycle_blocks s)) [
  | inl e ↦ rw e (refl, refl)
  | inr e ↦ rw e (refl, refl)
]

check_attempts-blocked :
    (n : ℤ) (f : Findings)
    → ((check_attempts n f).blocked ≡ f.blocked) × ((check_attempts n f).stale ≡ f.stale)
check_attempts-blocked n f = ground arith

check_run-blocked :
    (run : Option RuntimeVmRemediationRun) (f : Findings)
    → ((check_run run (awaits run) f).blocked ≡ (not (is_none run) || f.blocked))
      × ((check_run run (awaits run) f).stale ≡ f.stale)
check_run-blocked none f = (refl, refl)
check_run-blocked (some r) f =
    elim (Bool-cases (r.approval_required && str_eq r.approval_state "pending")) [
      | inl e ↦ rw e (refl, refl)
      | inr e ↦ rw e (refl, refl)
    ]

module _ (now : ℕ) (to_rfc3339 : ℕ → String) where
  check_deadline-blocked :
      (o : Option ℕ) (f : Findings)
      → ((check_deadline now to_rfc3339 o f).blocked ≡ (holds_for (λ d. leb d now) o || f.blocked))
        × ((check_deadline now to_rfc3339 o f).stale ≡ (holds_for (λ d. leb d now) o || f.stale))
  check_deadline-blocked none f = (refl, refl)
  check_deadline-blocked (some d) f = elim (Bool-cases (leb d now)) [
    | inl e ↦ rw e (refl, refl)
    | inr e ↦ rw e (refl, refl)
  ]

  note_completed-blocked :
      (reason : String) (o : Option ℕ) (f : Findings)
      → ((note_completed now to_rfc3339 reason o f).blocked ≡ f.blocked)
        × ((note_completed now to_rfc3339 reason o f).stale ≡ f.stale)
  note_completed-blocked reason none f = (refl, refl)
  note_completed-blocked reason (some t) f = (refl, refl)

  check_failure-blocked :
      (o : Option RemediationFailureSummary) (f : Findings)
      → ((check_failure now to_rfc3339 o f).blocked
          ≡ (holds_for (λ s. class_blocks s.classification) o || f.blocked))
        × ((check_failure now to_rfc3339 o f).stale ≡ f.stale)
  check_failure-blocked none f = (refl, refl)
  check_failure-blocked (some s) f = elim (Bool-cases (class_blocks s.classification)) [
    | inl e ↦ rw e (refl, (note_completed-blocked _ s.completed_at _).1)
    | inr e ↦ rw e (note_completed-blocked _ s.completed_at _)
  ]

  pub check_context-blocked :
      (run : Option RuntimeVmRemediationRun) (failure : Option RemediationFailureSummary)
      (f : Findings)
      → ((check_context now to_rfc3339 (gate_context run failure) f).blocked ≡ (
          holds_for (λ s. class_blocks s.classification) failure
          || (not (is_none run) || f.blocked)))
        × ((check_context now to_rfc3339 (gate_context run failure) f).stale ≡ f.stale)
  check_context-blocked none none f = (refl, refl)
  check_context-blocked none (some s) f = let (b, t) = check_failure-blocked (some s) f in (b, t)
  check_context-blocked (some r) failure f = (
    failed.0 ∙ ap (λ b. holds_for (λ s. class_blocks s.classification) failure || b) ran.0,
    failed.1 ∙ ran.1,
  )
    where
      ran_f : Findings
      ran_f = check_run (some r) (awaits (some r)) f

      failed :
          ((check_failure now to_rfc3339 failure ran_f).blocked
            ≡ (holds_for (λ s. class_blocks s.classification) failure || ran_f.blocked))
          × ((check_failure now to_rfc3339 failure ran_f).stale ≡ ran_f.stale)
      failed = check_failure-blocked failure ran_f

      ran : (ran_f.blocked ≡ true) × (ran_f.stale ≡ f.stale)
      ran = check_run-blocked (some r) f

  pub registry_findings-blocked :
      (vm : VmInstance) (registry : Option RuntimeVmTrustRegistryState)
      → ((registry_findings now to_rfc3339 vm registry).blocked ≡ (
          expired now registry
          || holds_for lifecycle_blocks (option_map (λ r. r.lifecycle_state) registry)))
        × ((registry_findings now to_rfc3339 vm registry).stale ≡ expired now registry)
  unfolding expired
  registry_findings-blocked vm none = (refl, refl)
  registry_findings-blocked vm (some r) =
      let p = note_some-blocked "trust:provenance:" r.provenance_ref attempts in
      let a = check_attempts-blocked r.remediation_attempts noted in
      let n = note_some-blocked "trust:remediation-state:" r.remediation_state dated in
      let d = check_deadline-blocked r.freshness_deadline cycle in
      let l = check_lifecycle-blocked (some r.lifecycle_state) start in
      (
        p.0
            ∙ a.0
            ∙ n.0
            ∙ d.0
            ∙ ap (λ b. holds_for (λ t. leb t now) r.freshness_deadline || b) (l.0 ∙ or_false _),
        p.1
            ∙ a.1
            ∙ n.1
            ∙ d.1
            ∙ ap (λ b. holds_for (λ t. leb t now) r.freshness_deadline || b) l.1
            ∙ or_false _,
      )
    where
      start : Findings
      start =
          note_some "trust:attestation:" (some vm.attestation_status)
            (record { blocked = false; stale = false; notes = [] })

      cycle : Findings
      cycle = check_lifecycle (some r.lifecycle_state) start

      dated : Findings
      dated = check_deadline now to_rfc3339 r.freshness_deadline cycle

      noted : Findings
      noted = note_some "trust:remediation-state:" r.remediation_state dated

      attempts : Findings
      attempts = check_attempts r.remediation_attempts noted
