-- ===== src/Trust/Placement.antt =====
-- The answers of the placement gate of backend/src/policy/trust.rs, on every branch.
use mcp_host.Prelude.{
  ℕ, ◌≡◌, refl, ap, ◌∙◌, Bool, true, ◌||◌, Option, none, some, String, arith, ◌⊎◌, inl, inr,
  Option-cases, Result, ok, err,
}
use mcp_host.Remediation.Runs.{
  RuntimeVmRemediationRun, RunTable, active_run, from_row, get_active_run_for_instance,
}
use mcp_host.Trust.Tables.{SqlError, column_not_found, VmInstance, TrustDb}
use mcp_host.Trust.Registry.{get_state}
use mcp_host.Trust.Outcome.{option_map}
use mcp_host.Trust.Gate.{
  TrustPlacementGate, class_blocks, lifecycle_blocks, registry_findings, check_context,
  gate_context, placement_gate, last_failure_of, current_instance, remediation_gate_for_instance,
  evaluate_placement_gate,
}
use mcp_host.Trust.Blocking.{
  expired, must_block, holds_for, check_context-blocked, registry_findings-blocked,
}

reorder : (a b d : Bool) → (d || (a || b)) ≡ (a || b || d)
reorder true true true = refl
reorder a b d = ground arith

-- A run in flight is refused for the columns that the statement does not select.
run_read :
    (runs : RunTable) (instance : ℕ)
    → ((r : RuntimeVmRemediationRun) × (active_run runs instance ≡ some r)
        × (get_active_run_for_instance runs instance
            ≡ err (column_not_found "analytics_duration_ms")))
      ⊎ ((active_run runs instance ≡ none) × (get_active_run_for_instance runs instance ≡ ok none))
unfolding get_active_run_for_instance from_row
run_read runs instance = elim (Option-cases (active_run runs instance)) [
  | inl n ↦ inr (n, rw (n, get_active_run_for_instance) refl)
  | inr (r, a) ↦ inl (r, a, rw (a, get_active_run_for_instance) refl)
]

module _ (now : ℕ) (to_rfc3339 : ℕ → String) (db : TrustDb) (server : ℕ) where
  abbrev answer : Result (Option TrustPlacementGate) SqlError
  answer = evaluate_placement_gate now to_rfc3339 db server

  -- The gate of a VM whose runs were read.
  abbrev pub Judged : VmInstance → Type 0
  Judged vm =
      (g : TrustPlacementGate) × (answer ≡ ok (some g))
      × (g.vm_instance_id ≡ vm.id)
      × (g.blocked ≡ must_block now db.runs (get_state db vm.id) vm.id)
      × (g.stale ≡ expired now (get_state db vm.id))

  judged :
      (vm : VmInstance)
      → current_instance db server ≡ some vm
      → get_active_run_for_instance db.runs vm.id ≡ ok none
      → Judged vm
  unfolding evaluate_placement_gate remediation_gate_for_instance must_block
  judged vm c read =
      let f = registry_findings now to_rfc3339 vm (get_state db vm.id) in
      let failure = last_failure_of db.runs vm.id in
      let before = registry_findings-blocked now to_rfc3339 vm (get_state db vm.id) in
      let after = check_context-blocked now to_rfc3339 none failure f in
      (
        placement_gate now to_rfc3339 vm (get_state db vm.id)
            (check_context now to_rfc3339 (gate_context none failure) f),
        rw (c, evaluate_placement_gate) (rw read refl),
        refl,
        after.0
            ∙ ap (λ b. holds_for (λ s. class_blocks s.classification) failure || b) before.0
            ∙ reorder (expired now (get_state db vm.id))
                (holds_for lifecycle_blocks
                  (option_map (λ r. r.lifecycle_state) (get_state db vm.id)))
                (holds_for (λ s. class_blocks s.classification) failure),
        after.1 ∙ before.1,
      )

  -- The gate on every branch. A server without a live VM has no gate. With a run of the server's newest
  -- live VM in flight, the call ends in an error: the row lacks the column `analytics_duration_ms`.
  -- Otherwise the gate is that of the VM, and it blocks exactly where the VM's freshness deadline has
  -- passed, its lifecycle state is quarantined or remediating, or its last run failed for another reason
  -- than its cancellation; it is stale exactly where the deadline has passed.
  pub evaluate_placement_gate-answers :
      ((current_instance db server ≡ none) × (answer ≡ ok none))
      ⊎ ((vm : VmInstance) × (current_instance db server ≡ some vm)
          × (((r : RuntimeVmRemediationRun) × (active_run db.runs vm.id ≡ some r)
                × (answer ≡ err (column_not_found "analytics_duration_ms")))
              ⊎ ((active_run db.runs vm.id ≡ none) × Judged vm)))
  unfolding evaluate_placement_gate remediation_gate_for_instance
  evaluate_placement_gate-answers = elim (Option-cases (current_instance db server)) [
    | inl n ↦ inl (n, rw (n, evaluate_placement_gate) refl)
    | inr (vm, c) ↦ elim (run_read db.runs vm.id) [
      | inl (r, a, g) ↦ inr (vm, c, inl (r, a, rw (c, evaluate_placement_gate) (rw g refl)))
      | inr (a, read) ↦ inr (vm, c, inr (a, judged vm c read))
    ]
  ]
