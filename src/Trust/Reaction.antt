-- ===== src/Trust/Reaction.antt =====
-- From the outcome of an attestation to the placement gate, backend/src/policy/trust.rs.
use mcp_host.Prelude.{
  ℕ, ◌≡◌, refl, ap, ◌∙◌, subst, Bool, true, false, ◌||◌, leb, Option, none, some, List, String, ◌⊎◌,
  inl, inr, arith, Result, ok, err,
}
use mcp_host.Remediation.Runs.{RuntimeVmRemediationRun, active_run}
use mcp_host.Trust.Attestation.{trusted, untrusted, AttestationOutcome}
use mcp_host.Trust.Lifecycle.{
  TrustLifecycleState, remediating, lifecycle_str, lifecycle_for_attestation,
}
use mcp_host.Trust.Tables.{SqlError, column_not_found, VmInstance, TrustDb}
use mcp_host.Trust.Registry.{get_state}
use mcp_host.Trust.Gate.{
  TrustPlacementGate, class_blocks, lifecycle_blocks, current_instance, last_failure_of,
  evaluate_placement_gate,
}
use mcp_host.Trust.Persist.{previous_lifecycle, persist_vm_attestation_outcome}
use mcp_host.Trust.Effects.{persist_refused}
use mcp_host.Trust.Blocking.{expired, holds_for, must_block}
use mcp_host.Trust.Placement.{evaluate_placement_gate-answers}

untrusted-blocks :
    (previous : Option TrustLifecycleState)
    → lifecycle_blocks (lifecycle_str (lifecycle_for_attestation untrusted previous)) ≡ true
unfolding lifecycle_blocks lifecycle_str lifecycle_for_attestation
untrusted-blocks (some remediating) = refl
untrusted-blocks _ = refl

trusted-passes :
    (previous : Option TrustLifecycleState)
    → lifecycle_blocks (lifecycle_str (lifecycle_for_attestation trusted previous)) ≡ false
unfolding lifecycle_blocks lifecycle_str lifecycle_for_attestation
trusted-passes previous = refl

mid : (a d : Bool) → (a || true || d) ≡ true
mid a d = ground arith

drop : (a d : Bool) → (a || false || d) ≡ (a || d)
drop a d = ground arith

module _ (base64 : String → Option (List ℕ)) (stamp : String)
    (db_now next_id at_server instance : ℕ) (o : AttestationOutcome) (notes : List String)
    (db : TrustDb) (now : ℕ) (to_rfc3339 : ℕ → String) (server : ℕ) (vm : VmInstance) where
  abbrev pub after : TrustDb
  after =
      (persist_vm_attestation_outcome base64 stamp db_now next_id at_server instance o notes db).1

  abbrev answer : Result (Option TrustPlacementGate) SqlError
  answer = evaluate_placement_gate now to_rfc3339 after server

  abbrev lifecycle_after : String
  lifecycle_after =
      lifecycle_str
        (lifecycle_for_attestation o.status (previous_lifecycle (get_state db instance)))

  abbrev overdue : Bool
  overdue = holds_for (λ d. leb d now) o.freshness_deadline

  abbrev failed_last : Bool
  failed_last = holds_for (λ s. class_blocks s.classification) (last_failure_of db.runs instance)

  -- The gate after the attestation: its error with a run in flight, and else an answer that blocks where
  -- the test says.
  abbrev pub Reacts : Bool → Type 0
  Reacts blocked =
      ((r : RuntimeVmRemediationRun) × (active_run db.runs instance ≡ some r)
        × (answer ≡ err (column_not_found "analytics_duration_ms")))
      ⊎ ((g : TrustPlacementGate) × (active_run db.runs instance ≡ none)
          × (answer ≡ ok (some g))
          × (g.vm_instance_id ≡ instance)
          × (g.blocked ≡ blocked))

  must_block-after :
      must_block now after.runs (get_state after instance) instance
      ≡ (overdue || lifecycle_blocks lifecycle_after || failed_last)
  unfolding must_block expired
  must_block-after =
      let (r, _, there, l, _, _, d, _, _, _, runs) =
        persist_refused base64 stamp db_now next_id at_server instance o notes db in
      rw runs (rw there (rw l (rw d refl)))

  same_runs : after.runs ≡ db.runs
  same_runs =
      let (r, _, there, l, _, _, d, _, _, _, runs) =
        persist_refused base64 stamp db_now next_id at_server instance o notes db in
      runs

  reacts :
      current_instance after server ≡ some vm
      → vm.id ≡ instance
      → Reacts (overdue || lifecycle_blocks lifecycle_after || failed_last)
  reacts c here = elim (evaluate_placement_gate-answers now to_rfc3339 after server) [
    | inl (n, a) ↦ cc
    | inr (v, c', inl (r, run, a)) ↦
        let same : v ≡ vm = cc in inl (r, rw same_runs at (rw here at (rw same at run)), a)
    | inr (v, c', inr (idle, (g, a, i, b, s))) ↦
        let same : v ≡ vm = cc in
        inr (
          g,
          rw same_runs at (rw here at (rw same at idle)),
          a,
          i ∙ ap (λ x. x.id) same ∙ here,
          (rw here at (rw same at b)) ∙ must_block-after,
        )
  ]

  -- After an attestation that finds a server's newest live VM untrusted, the gate blocks the placement,
  -- except that with a run of the VM in flight it ends in an error.
  pub untrusted_attestation-blocks :
      o.status ≡ untrusted
      → current_instance after server ≡ some vm
      → vm.id ≡ instance
      → Reacts true
  untrusted_attestation-blocks u c here =
      subst Reacts
        (rw u (
          rw (untrusted-blocks (previous_lifecycle (get_state db instance)))
            (mid overdue failed_last)))
        (reacts c here)

  -- After an attestation that finds a server's newest live VM trusted, the gate ends in an error with a
  -- run of the VM in flight. Otherwise it blocks the placement exactly where the deadline of the
  -- attestation has passed, or the VM's last run failed for another reason than its cancellation.
  pub trusted_attestation-blocked :
      o.status ≡ trusted
      → current_instance after server ≡ some vm
      → vm.id ≡ instance
      → Reacts (
          holds_for (λ d. leb d now) o.freshness_deadline
          || holds_for (λ s. class_blocks s.classification) (last_failure_of db.runs instance))
  trusted_attestation-blocked t c here =
      subst Reacts
        (rw t (
          rw (trusted-passes (previous_lifecycle (get_state db instance)))
            (drop overdue failed_last)))
        (reacts c here)
