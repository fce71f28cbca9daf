-- ===== src/Servers/Twice.antt =====
-- What becomes of a start that backend/src/servers.rs sends to the worker and queues as well: the replay of
-- backend/src/job_queue.rs sends it again.
use mcp_host.Prelude.{
  ap, ℕ, ◌+◌, ◌≡◌, refl, ◌∙◌, true, false, Option, none, some, List, [], ◌∷◌, All, String, Value,
  ==_refl, str_eq, Result, ok, err, arith,
}
use mcp_host.Trust.Tables.{SqlError}
use mcp_host.Trust.Gate.{TrustPlacementGate, evaluate_placement_gate}
use mcp_host.JobQueue.{Job, Server, World, Turn, work}
use mcp_host.JobQueue.Dispatch.{blocks, launches, starts, let_through, work-launches}
use mcp_host.JobQueue.Queue.{Site, enqueue_job, submit, replay}
use mcp_host.Servers.Handlers.{start_job, own_server, guarded, launch, with_status, start_server}
use mcp_host.Servers.Requests.{passes}

module _ (payload : Job → Value) (read : Value → Option Job) (now : ℕ)
    (to_rfc3339 : ℕ → String) where
  abbrev pub gate : World → ℕ → Result (Option TrustPlacementGate) SqlError
  gate w server = evaluate_placement_gate now to_rfc3339 w.db server

  -- The site after a request to start a server and a pass of the replay.
  abbrev pub settled : (next_row user id : ℕ) → Site → Site
  settled next_row user id s = replay read (start_server payload gate next_row user id s).1

  abbrev pub jobs_of : List Turn → List Job
  jobs_of [] = []
  jobs_of (t ∷ ts) = t.job ∷ jobs_of ts

  -- The gate lets the server through at every turn.
  abbrev pub Open : ℕ → List Turn → Type 0
  Open server ts =
      All (λ t. blocks (evaluate_placement_gate t.now to_rfc3339 t.db server) ≡ false) ts

  lets_through :
      (server : ℕ) (ts : List Turn)
      → Open server ts
      → let_through to_rfc3339 server ts ≡ starts server (jobs_of ts)
  lets_through server [] o = refl
  lets_through server (t ∷ ts) o = rw o.0 (rw (lets_through server ts o.1) refl)

  guarded-launch :
      (next_row : ℕ) (x : Result (Option TrustPlacementGate) SqlError) (status : String)
      (r : Server) (s : Site)
      → passes x ≡ true
      → guarded payload gate next_row x status r s ≡ launch payload gate next_row status r s
  guarded-launch next_row (ok none) status r s t = refl
  guarded-launch next_row (err e) status r s t = cc
  guarded-launch next_row (ok (some g)) status r s t =
      let open_gate : g.blocked ≡ false = ground (arith, t) in rw open_gate refl

  module _ (next_row user id : ℕ) (s : Site) (r : Server)
      (own : own_server payload gate user id s ≡ some r)
      (stopped : str_eq r.status "running" ≡ false) (opened : passes (gate s.world r.id) ≡ true)
      (idle : s.channel ≡ []) (drained : s.queue ≡ [])
      (reads : read (payload (start_job payload gate r)) ≡ some (start_job payload gate r)) where
    abbrev job : Job
    job = start_job payload gate r

    abbrev starting : Site
    starting = with_status r.id "starting" s

    launched :
        (start_server payload gate next_row user id s).1 ≡ submit payload next_row job starting
    unfolding start_server
    launched =
        rw (own, start_server)
          (rw stopped
            (ap (λ x. x.1) (guarded-launch next_row (gate s.world r.id) "starting" r s opened)))

    replayed : (replay read (submit payload next_row job starting)).channel ≡ job ∷ job ∷ []
    unfolding replay enqueue_job
    replayed = rw drained (rw (reads, replay) (rw idle refl))

    same_world : (replay read (submit payload next_row job starting)).world ≡ starting.world
    unfolding replay enqueue_job
    same_world = rw drained (rw (reads, replay) refl)

    -- A request to start an own server that does not run and whose gate lets it through is launched twice
    -- by the worker, where the queue was drained and the job is read back from its row: once as sent and
    -- once as replayed. The worker takes the jobs up in turns on whatever tables and clocks it meets, as long
    -- as the gate lets the server through at each of them.
    pub start_server-launched_twice :
        (ts : List Turn)
        → jobs_of ts ≡ (settled next_row user id s).channel
        → Open r.id ts
        → launches r.id (work to_rfc3339 ts (settled next_row user id s).world).actions
          ≡ launches r.id s.world.actions + 2
    start_server-launched_twice ts same o =
        let channel : (settled next_row user id s).channel ≡ job ∷ job ∷ [] =
          rw launched replayed in
        let world : (settled next_row user id s).world ≡ starting.world = rw launched same_world in
        rw world (
          work-launches to_rfc3339 r.id ts starting.world
          ∙ rw (lets_through r.id ts o) (rw same (rw channel (rw (==_refl r.id) refl))))
