-- ===== src/JobQueue.antt =====
-- The worker of backend/src/job_queue.rs: what it does with a job that it receives. The calls of the
-- container runtime and the tasks that it spawns are recorded in order, and `servers` is the table of
-- the servers with their status; the payload columns of a `Start` are kept as the call's arguments.
pub mod Dispatch
pub mod Queue
use mcp_host.Prelude.{
  ℕ, ◌≡◌, ◌≢◌, refl, ◌∙◌, Bool, true, false, Option, none, some, List, [], ◌∷◌, ◌++◌, String, ◌==◌,
  Value, if◌then◌else◌, update_where, Result, ok, err, arith, ◌⊎◌, inl, inr,
}
use mcp_host.Trust.Attestation.{AttestationOutcome, untrusted}
use mcp_host.Trust.Tables.{SqlError, TrustDb}
use mcp_host.Trust.Gate.{TrustPlacementGate, blocked_status, evaluate_placement_gate}
use mcp_host.Trust.Reaction.{untrusted_attestation-blocks}

pub data Job : Type 0 where
  start :
      (server_id : ℕ) (server_type : String) (config : Option Value) (api_key : String)
      (use_gpu : Bool)
      → Job
  stop : (server_id : ℕ) → Job
  delete : (server_id : ℕ) → Job
  intelligence_refresh : (server_id : ℕ) → Job
  evaluation_refresh : (certification_id : ℕ) → Job

-- What the worker sets going.
pub data Action : Type 0 where
  spawn_server_task : ℕ → String → Option Value → String → Bool → Action
  stop_server_task : ℕ → Action
  delete_server_task : ℕ → Action
  recompute_from_history : ℕ → Action
  retry_certification : ℕ → Action

-- A row of mcp_servers.
pub record Server : Type 0 where
  pub id : ℕ
  pub owner_id : ℕ
  pub name : String
  pub server_type : String
  pub config : Option Value
  pub status : String
  pub api_key : String
  pub webhook_secret : String
  pub use_gpu : Bool
  pub organization_id : Option ℕ

pub record World : Type 0 where
  pub db : TrustDb
  pub servers : List Server
  pub actions : List Action

-- UPDATE mcp_servers SET status = $1 WHERE id = $2: of a missing row, the error is logged.
unfoldable pub set_status : ℕ → String → List Server → List Server
set_status server status servers =
    update_where (λ r. r.id == server) (λ r. record r { status = status }) servers

abbrev pub perform : Action → World → World
perform a w = record w { actions = w.actions ++ a ∷ [] }

abbrev pub preempt : ℕ → String → World → World
preempt server status w = record w { servers = set_status server status w.servers }

-- `match evaluate_placement_gate(...)`: an error is logged, and the job goes on.
unfoldable pub dispatch : Result (Option TrustPlacementGate) SqlError → ℕ → Action → World → World
dispatch (ok (some gate)) server launch w =
    if gate.blocked then preempt server (blocked_status gate) w else perform launch w
dispatch (ok none) server launch w = perform launch w
dispatch (err e) server launch w = perform launch w

-- A job as the worker takes it up: with the clock and the trust tables that it meets then. What the spawned
-- tasks and the rest of the program write to those tables between two jobs stands in the second job's.
pub record Turn : Type 0 where
  pub now : ℕ
  pub db : TrustDb
  pub job : Job

module _ (to_rfc3339 : ℕ → String) where
  unfoldable pub handle_job : (now : ℕ) → Job → World → World
  handle_job now (start server server_type config api_key use_gpu) w =
      dispatch (evaluate_placement_gate now to_rfc3339 w.db server) server
        (spawn_server_task server server_type config api_key use_gpu) w
  handle_job now (stop server) w = perform (stop_server_task server) w
  handle_job now (delete server) w = perform (delete_server_task server) w
  handle_job now (intelligence_refresh server) w = perform (recompute_from_history server) w
  handle_job now (evaluation_refresh certification) w =
      perform (retry_certification certification) w

  -- `while let Some(job) = rx.recv().await`
  unfoldable pub work : List Turn → World → World
  work [] w = w
  work (t ∷ ts) w = work ts (handle_job t.now t.job (record w { db = t.db }))
