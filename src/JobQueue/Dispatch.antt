-- ===== src/JobQueue/Dispatch.antt =====
-- Which servers the worker of backend/src/job_queue.rs launches.
use mcp_host.Prelude.{
  ℕ, ◌+◌, ◌≡◌, refl, sym, ◌∙◌, Bool, not, true, false, Option, none, some, List, [], ◌∷◌, ◌++◌,
  String, ◌==◌, Value, if◌then◌else◌, Result, ok, err, arith, inl, inr, Bool-cases, ==_iff,
}
use mcp_host.Remediation.Runs.{active_run}
use mcp_host.Trust.Attestation.{AttestationOutcome, untrusted}
use mcp_host.Trust.Tables.{SqlError, VmInstance, TrustDb}
use mcp_host.Trust.Registry.{get_state}
use mcp_host.Trust.Gate.{
  TrustPlacementGate, blocked_status, is_none, current_instance, evaluate_placement_gate,
}
use mcp_host.Trust.Blocking.{expired, must_block}
use mcp_host.Trust.Placement.{evaluate_placement_gate-answers}
use mcp_host.Trust.Persist.{persist_vm_attestation_outcome}
use mcp_host.Trust.Reaction.{untrusted_attestation-blocks}
use mcp_host.JobQueue.{
  Job, start, stop, delete, intelligence_refresh, evaluation_refresh, Action, spawn_server_task,
  stop_server_task, delete_server_task, recompute_from_history, retry_certification, World, perform,
  preempt, dispatch, Turn, handle_job, work,
}

-- The gate's answer blocks the placement.
unfoldable pub blocks : Result (Option TrustPlacementGate) SqlError → Bool
blocks (ok (some g)) = g.blocked
blocks (ok none) = false
blocks (err e) = false

abbrev launches_one : ℕ → Action → ℕ
launches_one server (spawn_server_task s _ _ _ _) = if s == server then 1 else 0
launches_one server _ = 0

-- How often a server was launched.
abbrev pub launches : ℕ → List Action → ℕ
launches server [] = 0
launches server (a ∷ rest) = launches_one server a + launches server rest

abbrev start_of : ℕ → Job → ℕ
start_of server (start s _ _ _ _) = if s == server then 1 else 0
start_of server _ = 0

-- How often jobs ask for a launch of a server.
abbrev pub starts : ℕ → List Job → ℕ
starts server [] = 0
starts server (j ∷ js) = start_of server j + starts server js

launches-append :
    (server : ℕ) (done : List Action) (a : Action)
    → launches server (done ++ a ∷ []) ≡ launches server done + launches_one server a
launches-append server [] a = omega arith
launches-append server (x ∷ xs) a = omega (arith, launches-append server xs a)

launches-if :
    (b : Bool) (server : ℕ) (done : List Action) (a : Action)
    → launches server (if b then done else done ++ a ∷ [])
      ≡ launches server done + (if b then 0 else launches_one server a)
launches-if true server done a = omega arith
launches-if false server done a = launches-append server done a

zero_if : (b : Bool) → ◌≡◌ {A = ℕ} (if b then 0 else 0) 0
zero_if true = refl
zero_if false = refl

dispatch_effects :
    (r : Result (Option TrustPlacementGate) SqlError) (server : ℕ) (launch : Action) (w : World)
    → ((dispatch r server launch w).db ≡ w.db)
      × ((dispatch r server launch w).actions
          ≡ (if blocks r then w.actions else w.actions ++ launch ∷ []))
unfolding dispatch blocks
dispatch_effects (ok none) server launch w = (refl, refl)
dispatch_effects (err e) server launch w = (refl, refl)
dispatch_effects (ok (some g)) server launch w = elim (Bool-cases g.blocked) [
  | inl b ↦ rw b (refl, refl)
  | inr b ↦ rw b (refl, refl)
]

-- A run of the VM is in flight.
abbrev pub in_repair : TrustDb → ℕ → Bool
in_repair db instance = not (is_none (active_run db.runs instance))

module _ (to_rfc3339 : ℕ → String) where
  abbrev gate : ℕ → TrustDb → ℕ → Result (Option TrustPlacementGate) SqlError
  gate now = evaluate_placement_gate now to_rfc3339

  -- How often turns let a launch of a server through: for each start of it whose gate does not block then.
  abbrev pub let_through : ℕ → List Turn → ℕ
  let_through server [] = 0
  let_through server (t ∷ ts) =
      (if blocks (gate t.now t.db server) then 0 else start_of server t.job) + let_through server ts

  -- A start of a server with a live VM. With a run of its newest live VM in flight the launch is performed,
  -- since the gate ends in an error. Otherwise it is preempted where that VM must block: the server's status
  -- becomes "pending-attestation" where the VM's deadline has passed and "pending-remediation" where not,
  -- and nothing is launched; and where the VM need not block the launch is performed, with the job's own
  -- arguments.
  pub handle_job-start :
      (now : ℕ) (w : World) (vm : VmInstance) (server : ℕ) (server_type : String)
      (config : Option Value) (api_key : String) (use_gpu : Bool)
      → current_instance w.db server ≡ some vm
      → handle_job to_rfc3339 now (start server server_type config api_key use_gpu) w ≡ (
          if in_repair w.db vm.id
          then perform (spawn_server_task server server_type config api_key use_gpu) w
          else if must_block now w.db.runs (get_state w.db vm.id) vm.id
          then preempt server
              (if expired now (get_state w.db vm.id)
                then "pending-attestation"
                else "pending-remediation")
              w
          else perform (spawn_server_task server server_type config api_key use_gpu) w)
  unfolding handle_job dispatch blocked_status
  handle_job-start now w vm server server_type config api_key use_gpu c =
      elim (evaluate_placement_gate-answers now to_rfc3339 w.db server) [
        | inl (n, a) ↦ cc
        | inr (v, c', inl (r, run, a)) ↦
            let same : v ≡ vm = cc in rw (a, dispatch) (rw (rw same at run) refl)
        | inr (v, c', inr (idle, (g, a, i, b, s))) ↦
            let same : v ≡ vm = cc in
            let b' = rw same at b in
            let s' = rw same at s in
            rw (a, dispatch) (rw (rw same at idle) (rw (sym b') (rw (sym s') refl)))
      ]

  gate-stale :
      (now : ℕ) (db : TrustDb) (server : ℕ) (g : TrustPlacementGate)
      → gate now db server ≡ ok (some g)
      → g.stale ≡ expired now (get_state db g.vm_instance_id)
  gate-stale now db server g e = elim (evaluate_placement_gate-answers now to_rfc3339 db server) [
    | inl (n, a) ↦ cc
    | inr (vm, c, inl (r, run, a)) ↦ cc
    | inr (vm, c, inr (idle, (h, a, i, b, s))) ↦ let same : g ≡ h = cc in rw same (rw i s)
  ]

  -- A start after an attestation that found the server's newest live VM untrusted is preempted, unless a run
  -- of the VM is in flight: then the server is launched all the same.
  pub untrusted_attestation-preempts :
      (base64 : String → Option (List ℕ)) (stamp : String) (db_now next_id at_server instance : ℕ)
      (o : AttestationOutcome) (notes : List String) (db : TrustDb) (now : ℕ) (server : ℕ)
      (vm : VmInstance) (server_type : String) (config : Option Value) (api_key : String)
      (use_gpu : Bool) (w : World)
      → o.status ≡ untrusted
      → w.db
        ≡ (persist_vm_attestation_outcome base64 stamp db_now next_id at_server instance o notes
            db).1
      → current_instance w.db server ≡ some vm
      → vm.id ≡ instance
      → handle_job to_rfc3339 now (start server server_type config api_key use_gpu) w ≡ (
          if in_repair db instance
          then perform (spawn_server_task server server_type config api_key use_gpu) w
          else preempt server
              (if expired now (get_state w.db instance)
                then "pending-attestation"
                else "pending-remediation")
              w)
  unfolding handle_job dispatch blocked_status
  untrusted_attestation-preempts base64 stamp db_now next_id at_server instance o notes db now
        server vm server_type config api_key use_gpu w u at c here =
      let stale = gate-stale now w.db server in
      elim (untrusted_attestation-blocks base64 stamp db_now next_id at_server instance o notes db
        now to_rfc3339 server vm u (rw at at c) here) [
          | inl (r, run, a) ↦ rw (rw (← at) at a, dispatch) (rw run refl)
          | inr (g, idle, a, i, b) ↦
              let s = (rw i at (stale g (rw (← at) at a))) in
              rw (rw (← at) at a, dispatch) (rw idle (rw b (rw s refl)))
        ]

  idle :
      (server : ℕ) (w : World) (a : Action) (now : ℕ)
      → launches_one server a ≡ 0
      → launches server (w.actions ++ a ∷ [])
        ≡ launches server w.actions + (if blocks (gate now w.db server) then 0 else 0)
  idle server w a now e =
      rw (launches-append server w.actions a)
        (rw e (rw (zero_if (blocks (gate now w.db server))) refl))

  handle_job-launches :
      (server now : ℕ) (j : Job) (w : World)
      → launches server (handle_job to_rfc3339 now j w).actions
        ≡ launches server w.actions
          + (if blocks (gate now w.db server) then 0 else start_of server j)
  unfolding handle_job
  handle_job-launches server now (start s server_type config api_key use_gpu) w =
      rw (dispatch_effects (gate now w.db s) s task w).1
        (launches-if (blocks (gate now w.db s)) server w.actions task ∙ same_server)
    where
      task : Action
      task = spawn_server_task s server_type config api_key use_gpu

      same_server :
          launches server w.actions
            + (if blocks (gate now w.db s) then 0 else (if s == server then 1 else 0))
          ≡ launches server w.actions
            + (if blocks (gate now w.db server) then 0 else (if s == server then 1 else 0))
      same_server = elim (Bool-cases (s == server)) [
        | inl e ↦ let same : s ≡ server = (==_iff s server).0 e in rw same refl
        | inr e ↦ rw e (
            rw (zero_if (blocks (gate now w.db s)))
              (rw (zero_if (blocks (gate now w.db server))) refl))
      ]
  handle_job-launches server now (stop s) w = idle server w (stop_server_task s) now refl
  handle_job-launches server now (delete s) w = idle server w (delete_server_task s) now refl
  handle_job-launches server now (intelligence_refresh s) w =
      idle server w (recompute_from_history s) now refl
  handle_job-launches server now (evaluation_refresh s) w =
      idle server w (retry_certification s) now refl

  -- Over any sequence of turns, a server is launched once for each start of it that the worker takes up
  -- while the gate's answer on the tables of that turn does not block it, and never otherwise. So a gate that
  -- ends in an error lets every start through.
  pub work-launches :
      (server : ℕ) (ts : List Turn) (w : World)
      → launches server (work to_rfc3339 ts w).actions
        ≡ launches server w.actions + let_through server ts
  unfolding work
  work-launches server [] w = omega arith
  work-launches server (t ∷ ts) w =
      work-launches server ts (handle_job to_rfc3339 t.now t.job (record w { db = t.db }))
      ∙ rw (handle_job-launches server t.now t.job (record w { db = t.db })) (omega arith)
