-- ===== src/Lib.antt =====
-- The core of the backend of MCP Host, modelled and verified: subscription billing, the trust of
-- confidential VMs with its placement gate, the worker that starts servers, and the promotion of
-- artifacts through release stages.
--
-- How the parts interact. `BillingService` (backend/src/billing/service.rs) answers quota requests
-- from the tables of plans, entitlements, subscriptions and usage; the renewal scheduler
-- (backend/src/billing/scheduler.rs) moves lapsed subscriptions on through the service's own methods.
-- An attestation of a VM is persisted by backend/src/policy/trust.rs into the trust registry; the
-- placement gate of the same file reads the registry and the remediation runs, and the handlers of
-- backend/src/servers.rs and the worker of backend/src/job_queue.rs, to which they hand jobs through a
-- channel and a table, ask it before a server starts. Promotions (backend/src/promotions.rs) read the
-- registry, the runs and the intelligence scores of an artifact's server for their verdict; the code
-- behind it, which starts a run of the track's workflow in the governance engine
-- (backend/src/governance/engine.rs), is never reached, since the written row is not read back. A
-- run's status is meant to move its promotion on, which the database refuses; the engine's gate tells
-- a placement whether a promotion is ready. Provider keys (backend/src/keys) are registered, rotated
-- and revoked, and summed up for the placement policy. That policy (backend/src/policy.rs) decides
-- where a server runs, and whether an evaluation or an approval has to come first, from the server's
-- last artifact, its certifications, its scores, the organization's quota, the engine's gate and the
-- provider's key. The marketplace (backend/src/marketplace.rs) takes submissions of providers whose
-- keys are in order.
--
-- Files.
--   Prelude/*        shared: Boolean tests, tables as lists (select, find, update_where, latest), integers
--                    with the operations on i64 and i32, results and steps on tables (Exec), text, JSON.
--   Sql              the errors of sqlx.
--   Chrono           the calendar of the crate chrono, as a record of operations (Calendar) with the laws
--                    that the code relies on (IsCalendar); `plain` shows that they can hold.
--   Billing/Models, Windows, Service, Usage, Subscriptions   backend/src/billing/models.rs and service.rs:
--                    `window_bounds`, `active_subscription`, `enforce_quota`, `record_usage`,
--                    `settle_usage`, `upsert_subscription`, `mark_subscription_overdue`,
--                    `suspend_subscription`, `downgrade_subscription`.
--   Billing/Scheduler    backend/src/billing/scheduler.rs: `process_tick`, `compute_period_end`.
--   Billing/Rows, Candidates, Steps, Ticks, Renewal          proofs on the scheduler.
--   Billing/Ledger, Lookup, Quota, Requests, Overflow        proofs on the quotas.
--   Remediation/Failures, Runs   backend/src/remediation.rs (failure reasons) and the queries of
--                    backend/src/db/runtime_vm_remediation_runs.rs that the gate uses.
--   Trust/Attestation    backend/src/runtime/vm/attestation.rs, the outcome's types.
--   Trust/Lifecycle, Outcome, Persist, Gate      backend/src/policy/trust.rs:
--                    `persist_vm_attestation_outcome`, `evaluate_placement_gate`,
--                    `remediation_gate_for_instance`; `insert_attestation` and `insert_trust_event`.
--   Trust/Tables, Registry   backend/src/db/runtime_vm_trust_registry.rs: `get_state`, `upsert_state`,
--                    `apply_transition`.
--   Trust/Control        backend/src/trust.rs: `transition_registry_state`; Error is its error type,
--                    backend/src/error.rs.
--   Trust/Versions, Effects, Blocking, Placement, Reaction, Transitions   proofs on the registry and the
--                    gate.
--   Governance/Models, Runs, Status, Ready   backend/src/governance/models.rs and engine.rs: workflows,
--                    `start_workflow_run`, `fetch_run_detail`, `update_run_status`,
--                    `sync_promotion_status`, `ensure_promotion_ready`.
--   Governance/Started, Settled, Gate    proofs on the engine.
--   Keys/Models, Events, Register, Rotation, Sla, Bindings   backend/src/keys/models.rs, events.rs,
--                    policy.rs and service.rs.
--   Keys/Summary, Lifecycle, Revoked, Deadlines      proofs on the keys.
--   JobQueue, JobQueue/Queue     the worker of backend/src/job_queue.rs, and its queue with the replay;
--                    JobQueue/Dispatch has the proofs.
--   Servers/Handlers, Webhooks   backend/src/servers.rs: `create_server`, `start_server`, `stop_server`,
--                    `delete_server`, `redeploy_server` and the webhooks.
--   Servers/Requests, Twice      proofs on the handlers, and on them together with the worker.
--   Promotions/Train, Posture, Signals, Schedule     backend/src/promotions.rs.
--   Promotions/Verdicts, Admission, Places           proofs on the promotions.
--   Policy/Artifacts     backend/src/marketplace.rs: `derive_health`, `classify_tier`, with their reference.
--   Policy/Backends, Posture, Certifications, Checks, Decision   backend/src/policy.rs: `evaluate`,
--                    `select_backend`, `evaluate_vm_attestation_posture`; `latest_per_requirement` of
--                    backend/src/evaluations.rs; `minimum_threshold` of backend/src/intelligence.rs.
--   Policy/Selected, Reasons, Clear      the proofs on decisions that require nothing more.
--   Marketplace/Models, Posture, Handlers    backend/src/marketplace.rs: `create_provider_submission`,
--                    `create_evaluation_run`, `transition_evaluation_run`, `create_promotion_gate`,
--                    `transition_promotion_gate`; Rows, Changed, Entitled, Accountable have the proofs.
--   Examples/*           runs and theorems at concrete data.
--
-- Choices. A table is a list of rows in the order of insertion, and a method takes the tables and
-- gives back its result with the tables after it, also beside an error. Rows keep the columns that the
-- modelled statements read or write. Identifiers are natural numbers, and so are instants (nanoseconds
-- from the first instant of chrono's range). `now` is `Utc::now()`, `db_now` the database's `NOW()`,
-- `fresh` and `next_id` a new identifier: all are arguments. A statement of the database fails only
-- where the model says so, and foreign keys are not modelled. sqlx compares names and types of columns
-- when it decodes a row: this is modelled for the columns of a remediation run and for a promotion's
-- status in `load_promotion`. Otherwise it is not: in the placement gate (an INT4 read as i64) and in
-- `ensure_promotion_ready` (an enum read as a String) the model reads the value where sqlx panics. The
-- worker takes up a list of turns (`Turn`), each a job with the clock and the trust tables that the
-- worker then meets, so that whatever the spawned tasks and other requests write between two jobs is
-- covered. `ORDER BY ... LIMIT 1` takes the first of equal rows. Integer arithmetic is that of a
-- release build, which wraps. Texts are lower-cased in ASCII. A score is in hundredths and a
-- confidence in thousandths, as their NUMERIC columns are. `to_rfc3339`, the prints of a score
-- (`tenths`) and of an identifier (`uuid`), base64 (`decodes`), serde's conversion of a job
-- (`payload`, `read`), and the signature of a webhook (`hmac`) are arguments. Loops are recursion on
-- lists; the only fuel is that of the decimal print in Prelude/Text, which is one more than the
-- number.
--
-- Not modelled: HTTP routing and authentication, the sleeping loops around a tick and around the
-- queue's replay, broadcasts and log lines, container and VM runtimes, the remediation executors, the
-- listener and the listings of backend/src/trust.rs, the policy engine's registry of executors, its
-- query of a server's newest VM and the recording of its decisions, the computation of intelligence
-- scores (a decision takes them as an argument), the scheduler of evaluations, the listings and
-- streams of the marketplace, the lifecycle console, vector databases, and the clients in other
-- languages.
pub mod Prelude
pub mod Chrono
pub mod Error
pub mod Sql
pub mod Billing
pub mod Remediation
pub mod Trust
pub mod Governance
pub mod JobQueue
pub mod Servers
pub mod Policy
pub mod Marketplace
pub mod Keys
pub mod Promotions
pub mod Examples
