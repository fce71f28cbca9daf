-- ===== src/Examples/Trust.antt =====
-- The theorems on the trust registry, the placement gate and the job worker at concrete tables.
use mcp_host.Prelude.{
  ℕ, ◌+◌, ◌≡◌, refl, true, false, ◌||◌, Option, none, some, List, [], ◌∷◌, String, show_nat, ◌⊎◌,
  if◌then◌else◌, leb, ok, err, pos,
}
use mcp_host.Remediation.Runs.{
  from_row, RuntimeVmRemediationRun, active_run, in_flight, last_run, get_active_run_for_instance,
}
use mcp_host.Trust.Attestation.{
  AttestationStatus, trusted, untrusted, AttestationOutcome, amd_sev_snp, status_str,
}
use mcp_host.Trust.Tables.{
  column_not_found, row_not_found, database, VmInstance, RuntimeVmTrustRegistryState, TrustDb,
}
use mcp_host.Trust.Lifecycle.{lifecycle_for_attestation, from_str, lifecycle_str}
use mcp_host.Trust.Registry.{
  UpsertRuntimeVmTrustRegistryState, get_state, write_state, upsert_state, apply_transition,
}
use mcp_host.Trust.Outcome.{
  insert_attestation, insert_trust_event, set_instance_status, attempts_after, or_zero, option_map,
}
use mcp_host.Trust.Versions.{upsert_state-lost_update}
use mcp_host.Trust.Persist.{
  previous_lifecycle, persist_registry, registry_input, persist_vm_attestation_outcome,
}
use mcp_host.Trust.Effects.{persist_refused}
use mcp_host.Trust.Gate.{
  class_blocks, last_failure_of, current_instance, evaluate_placement_gate,
  remediation_gate_for_instance, lifecycle_blocks,
}
use mcp_host.Trust.Blocking.{expired, holds_for, must_block}
use mcp_host.Trust.Placement.{Judged, evaluate_placement_gate-answers}
use mcp_host.Trust.Reaction.{Reacts, untrusted_attestation-blocks, trusted_attestation-blocked}
use mcp_host.Error.{AppError}
use mcp_host.Trust.Control.{
  TrustRegistryTransitionRequest, transition_registry_state, prepare, normalize_attestation_status,
  normalize_lifecycle_state, load_vm_context, check_version, fetch_registry_view_for_vm,
}
use mcp_host.Trust.Transitions.{Accepted, transition_registry_state-Accepted}
use mcp_host.Prelude.{trim, to_lowercase, ◌+ℤ◌}
use mcp_host.JobQueue.{
  Server, Job, Action, Turn, start, stop, spawn_server_task, World, preempt, perform, handle_job,
  work,
}
use mcp_host.JobQueue.Dispatch.{
  blocks, launches, let_through, in_repair, handle_job-start, work-launches,
  untrusted_attestation-preempts,
}

abbrev no_base64 : String → Option (List ℕ)
no_base64 s = none

abbrev vm : VmInstance
vm = record {
  id = 3;
  server_id = 7;
  attestation_status = "unknown";
  attestation_evidence = none;
  created_at = 100;
  terminated_at = none;
}

abbrev registered : RuntimeVmTrustRegistryState
registered = record {
  runtime_vm_instance_id = 3;
  attestation_status = "trusted";
  lifecycle_state = "restored";
  remediation_state = none;
  remediation_attempts = pos 0;
  freshness_deadline = some 900;
  provenance_ref = none;
  provenance = none;
  version = pos 4;
  updated_at = 200;
}

abbrev tables : TrustDb
tables = record {
  instances = vm ∷ [];
  registry = registered ∷ [];
  history = [];
  attestations = [];
  runs = [];
  artifact_runs = [];
  certifications = [];
}

abbrev outcome : AttestationStatus → AttestationOutcome
outcome status = record {
  status = status;
  evidence = none;
  notes = [];
  attestation_kind = amd_sev_snp;
  freshness_deadline = some 2000;
}

abbrev after : AttestationStatus → TrustDb
after status =
    (persist_vm_attestation_outcome no_base64 "now" 1000 1 7 3 (outcome status) [] tables).1

abbrev write : String → UpsertRuntimeVmTrustRegistryState
write lifecycle = record {
  runtime_vm_instance_id = 3;
  attestation_status = "trusted";
  lifecycle_state = lifecycle;
  remediation_state = none;
  remediation_attempts = pos 0;
  freshness_deadline = none;
  provenance_ref = none;
  provenance = none;
  expected_version = some (pos 4);
}

upsert_state-lost_update_example :
    (r : RuntimeVmTrustRegistryState) × (db' : TrustDb) × (upsert_state 300
        (write "quarantined")
        tables
      ≡ (ok r, db'))
    × (upsert_state 301 (write "restored") db' ≡ (err row_not_found, db'))
unfolding get_state
upsert_state-lost_update_example =
    upsert_state-lost_update 300 301 (write "quarantined") (write "restored") tables refl refl refl

abbrev lifecycle_of : Option RuntimeVmTrustRegistryState → String
lifecycle_of none = ""
lifecycle_of (some r) = r.lifecycle_state

-- After an untrusted attestation the registry says so, though the call itself fails.
persist_refused_test : lifecycle_of (get_state (after untrusted) 3) ≡ "quarantined"
unfolding get_state persist_vm_attestation_outcome persist_registry insert_attestation
    insert_trust_event set_instance_status registry_input upsert_state write_state
    lifecycle_for_attestation lifecycle_str from_str
persist_refused_test = refl

persist_refused_example :
    (r : RuntimeVmTrustRegistryState) × ((persist_vm_attestation_outcome no_base64 "now" 1000 1 7 3
        (outcome untrusted)
        []
        tables).0
      ≡ err (database "INSERT has more target columns than expressions"))
    × (get_state (after untrusted) 3 ≡ some r)
    × (r.lifecycle_state
        ≡ lifecycle_str
            (lifecycle_for_attestation untrusted (previous_lifecycle (get_state tables 3))))
    × (r.remediation_attempts
        ≡ attempts_after untrusted (
            or_zero (
              option_map
                (λ (t : RuntimeVmTrustRegistryState). t.remediation_attempts)
                (get_state tables 3))))
    × (r.attestation_status ≡ status_str untrusted)
    × (r.freshness_deadline ≡ some 2000)
    × ((after untrusted).history ≡ [])
    × ((after untrusted).certifications ≡ [])
    × ((after untrusted).instances ≡ (set_instance_status 3 (outcome untrusted) tables).instances)
    × ((after untrusted).runs ≡ [])
persist_refused_example = persist_refused no_base64 "now" 1000 1 7 3 (outcome untrusted) [] tables

evaluate_placement_gate-answers_example :
    ((current_instance tables 7 ≡ none)
      × (evaluate_placement_gate 1000 show_nat tables 7 ≡ ok none))
    ⊎ ((v : VmInstance) × (current_instance tables 7 ≡ some v)
        × (((r : RuntimeVmRemediationRun) × (active_run tables.runs v.id ≡ some r)
              × (evaluate_placement_gate 1000 show_nat tables 7
                  ≡ err (column_not_found "analytics_duration_ms")))
            ⊎ ((active_run tables.runs v.id ≡ none) × Judged 1000 show_nat tables 7 v)))
evaluate_placement_gate-answers_example = evaluate_placement_gate-answers 1000 show_nat tables 7

-- The deadline 900 has passed at 1000.
must_block_test :
    (must_block 1000 [] (some registered) 3 ≡ true)
    × (must_block 800 [] (some registered) 3 ≡ false)
unfolding must_block expired active_run in_flight last_failure_of last_run lifecycle_blocks
must_block_test = (refl, refl)

abbrev vm_after : AttestationStatus → VmInstance
vm_after status = record vm { attestation_status = status_str status }

untrusted_attestation-blocks_example :
    Reacts no_base64 "now" 1000 1 7 3
      (outcome untrusted)
      []
      tables
      1000
      show_nat
      7
      (vm_after untrusted)
      true
unfolding get_state persist_vm_attestation_outcome persist_registry insert_attestation
    insert_trust_event set_instance_status registry_input upsert_state write_state current_instance
    status_str
untrusted_attestation-blocks_example =
    untrusted_attestation-blocks no_base64 "now" 1000 1 7 3 (outcome untrusted) [] tables 1000
      show_nat 7 (vm_after untrusted) refl refl refl

trusted_attestation-blocked_example :
    Reacts no_base64 "now" 1000 1 7 3
      (outcome trusted)
      []
      tables
      1000
      show_nat
      7
      (vm_after trusted)
      (holds_for (λ d. leb d 1000) (some 2000)
        || holds_for (λ s. class_blocks s.classification) (last_failure_of [] 3))
unfolding get_state persist_vm_attestation_outcome persist_registry insert_attestation
    insert_trust_event set_instance_status registry_input upsert_state write_state current_instance
    status_str
trusted_attestation-blocked_example =
    trusted_attestation-blocked no_base64 "now" 1000 1 7 3 (outcome trusted) [] tables 1000 show_nat
      7 (vm_after trusted) refl refl refl

abbrev chat : Server
chat = record {
  id = 7;
  owner_id = 5;
  name = "chat";
  server_type = "Slack";
  config = none;
  status = "stopped";
  api_key = "key";
  webhook_secret = "secret";
  use_gpu = false;
  organization_id = none;
}

abbrev world : TrustDb → World
world db = record { db = db; servers = chat ∷ []; actions = [] }

abbrev the_start : Job
the_start = start 7 "Slack" none "key" false

abbrev launch : Action
launch = spawn_server_task 7 "Slack" none "key" false

handle_job-start_example : handle_job show_nat 1000 the_start (world tables) ≡ (
    if in_repair tables 3
    then perform launch (world tables)
    else if must_block 1000 [] (get_state tables 3) 3
    then preempt 7
        (if expired 1000 (get_state tables 3) then "pending-attestation" else "pending-remediation")
        (world tables)
    else perform launch (world tables))
unfolding current_instance
handle_job-start_example =
    handle_job-start show_nat 1000 (world tables) vm 7 "Slack" none "key" false refl

abbrev in_flight_run : RuntimeVmRemediationRun
in_flight_run = record {
  id = 1;
  runtime_vm_instance_id = 3;
  playbook = "restart";
  status = "running";
  approval_required = false;
  approval_state = "auto-approved";
  started_at = 975;
  completed_at = none;
  last_error = none;
  failure_reason = none;
  version = 1;
  updated_at = 975;
}

-- The VM runs until the server is stopped, and has a run in flight at the last start.
abbrev turns : List Turn
turns =
    record { now = 950; db = tables; job = the_start }
    ∷ record { now = 960; db = tables; job = stop 7 }
    ∷ record {
      now = 970;
      db = record tables { instances = record vm { terminated_at = some 965 } ∷ [] };
      job = the_start;
    }
    ∷ record { now = 980; db = record tables { runs = in_flight_run ∷ [] }; job = the_start }
    ∷ []

work-launches_example :
    launches 7 (work show_nat turns (world tables)).actions ≡ 0 + let_through show_nat 7 turns
work-launches_example = work-launches show_nat 7 turns (world tables)

-- The passed deadline stops the first start only: the second meets no live VM, the third the gate's error.
turns_test : let_through show_nat 7 turns ≡ 2
unfolding evaluate_placement_gate current_instance remediation_gate_for_instance
    get_active_run_for_instance active_run in_flight from_row get_state last_failure_of last_run
    blocks lifecycle_blocks
turns_test = refl

untrusted_attestation-preempts_example :
    handle_job show_nat 1000 the_start (world (after untrusted)) ≡ (
      if in_repair tables 3
      then perform launch (world (after untrusted))
      else preempt 7
          (if expired 1000 (get_state (after untrusted) 3)
            then "pending-attestation"
            else "pending-remediation")
          (world (after untrusted)))
unfolding get_state persist_vm_attestation_outcome persist_registry insert_attestation
    insert_trust_event set_instance_status registry_input upsert_state write_state current_instance
    status_str
untrusted_attestation-preempts_example =
    untrusted_attestation-preempts show_nat no_base64 "now" 1000 1 7 3 (outcome untrusted) [] tables
      1000 7 (vm_after untrusted) "Slack" none "key" false (world (after untrusted)) refl refl refl
      refl

abbrev owner : ℕ → Option ℕ
owner server = some 5

abbrev transition : TrustRegistryTransitionRequest
transition = record {
  attestation_status = "Trusted";
  lifecycle_state = " Quarantined ";
  remediation_state = none;
  remediation_attempts = none;
  freshness_deadline = none;
  provenance_ref = none;
  provenance = none;
  transition_reason = none;
  metadata = none;
  expected_version = some (pos 4);
}

transition_registry_state-Accepted_example :
    ((e : AppError) × (transition_registry_state owner 1000 1000 5 3 transition tables
        ≡ (err e, tables)))
    ⊎ Accepted owner 5 3 transition tables 1000 1000
transition_registry_state-Accepted_example =
    transition_registry_state-Accepted owner 5 3 transition tables 1000 1000

abbrev tables_after : TrustDb
tables_after = (transition_registry_state owner 1000 1000 5 3 transition tables).1

-- The request is accepted, and the same request again is not.
transition_test :
    (lifecycle_of (get_state tables_after 3) ≡ "quarantined")
    × ((transition_registry_state owner 1000 1000 5 3 transition tables_after).1 ≡ tables_after)
unfolding transition_registry_state prepare normalize_attestation_status normalize_lifecycle_state
    trim to_lowercase load_vm_context check_version apply_transition write_state get_state
    fetch_registry_view_for_vm ◌+ℤ◌
transition_test = (refl, refl)
