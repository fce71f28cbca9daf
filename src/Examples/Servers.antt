-- ===== src/Examples/Servers.antt =====
-- The theorems on backend/src/servers.rs and the queue of backend/src/job_queue.rs at concrete data.
use mcp_host.Prelude.{
  ℕ, ◌+◌, ◌≡◌, refl, false, none, some, Option, List, [], ◌∷◌, String, Value, number, ℤ, pos,
  show_nat, ◌⊎◌,
}
use mcp_host.Trust.Tables.{TrustDb}
use mcp_host.Trust.Gate.{evaluate_placement_gate, current_instance}
use mcp_host.JobQueue.{Job, start, Server, Turn, work}
use mcp_host.JobQueue.Dispatch.{launches, blocks}
use mcp_host.JobQueue.Queue.{Site, enqueue_job, replay}
use mcp_host.Servers.Handlers.{start_server}
use mcp_host.Servers.Requests.{redeploy_request, Unqueued, Queued, handle, Allowed, handle-Allowed}
use mcp_host.Servers.Twice.{gate, settled, start_server-launched_twice}

-- One kind of job is enough for these runs: the start of the server below.
abbrev the_start : Job
the_start = start 7 "Slack" none "key" false

abbrev payload : Job → Value
payload j = number (pos 7)

abbrev read : Value → Option Job
read v = some the_start

abbrev chat : Server
chat = record {
  id = 7;
  owner_id = 5;
  name = "chat";
  server_type = "Slack";
  config = none;
  status = "stopped";
  api_key = "key";
  webhook_secret = "secret";
  use_gpu = false;
  organization_id = none;
}

abbrev no_vms : TrustDb
no_vms = record {
  instances = [];
  registry = [];
  history = [];
  attestations = [];
  runs = [];
  artifact_runs = [];
  certifications = [];
}

abbrev site : Site
site = record {
  world = record { db = no_vms; servers = chat ∷ []; actions = [] };
  queue = [];
  channel = [];
}

abbrev quota : ℕ → Option ℤ
quota user = some (pos 5)

abbrev hmac : String → String → String
hmac secret body = ""

abbrev after : Site
after =
    handle payload (gate payload read 1000 show_nat) quota hmac 90 8 1 "k" "w"
      (redeploy_request 5 7) site

handle-Allowed_example :
    Unqueued site after
    ⊎ ((j : Job) × Queued payload
          (gate payload read 1000 show_nat)
          quota
          hmac
          90
          8
          1
          "k"
          "w"
          j
          site
          after
        × Allowed payload
            (gate payload read 1000 show_nat)
            quota
            hmac
            90
            8
            1
            "k"
            "w"
            (redeploy_request 5 7)
            site
            j)
handle-Allowed_example =
    handle-Allowed payload (gate payload read 1000 show_nat) quota hmac 90 8 1 "k" "w"
      (redeploy_request 5 7) site

-- The worker takes the two jobs up at different instants.
abbrev turns : List Turn
turns =
    record { now = 1001; db = no_vms; job = the_start }
    ∷ record { now = 6000; db = no_vms; job = the_start }
    ∷ []

start_server-launched_twice_example :
    launches 7 (work show_nat turns (settled payload read 1000 show_nat 1 5 7 site).world).actions
    ≡ 0 + 2
unfolding evaluate_placement_gate current_instance start_server replay enqueue_job blocks
start_server-launched_twice_example =
    start_server-launched_twice payload read 1000 show_nat 1 5 7 site chat refl refl refl refl refl
      refl turns refl (refl, (refl, tt))
