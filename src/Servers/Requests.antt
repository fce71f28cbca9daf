-- ===== src/Servers/Requests.antt =====
-- What any request of backend/src/servers.rs may hand to the worker.
use mcp_host.Prelude.{
  ℕ, ◌≡◌, refl, Bool, true, false, not, Option, none, some, [], ◌∷◌, ◌++◌, String, Value, str_eq,
  trim, ℤ, ◌⊎◌, inl, inr, Bool-cases, Option-cases, Result-cases, Result, ok, err,
}
use mcp_host.Trust.Outcome.{or_else}
use mcp_host.Trust.Tables.{SqlError}
use mcp_host.Trust.Gate.{TrustPlacementGate}
use mcp_host.JobQueue.{Job, stop, delete, Server, World}
use mcp_host.JobQueue.Queue.{Site, queued_row, enqueue_job}
use mcp_host.Servers.Handlers.{
  CreateServer, start_job, guarded, own_server, start_server, redeploy_server, stop_server,
  delete_server, within_quota, created_row, inserted, after_insert, create_server,
}
use mcp_host.Servers.Webhooks.{
  Header, header_text, or_empty, GithubHeaders, is_push, server_of, signed, webhook_redeploy,
  github_webhook,
}

-- The gate answers, and does not block.
abbrev pub passes : Result (Option TrustPlacementGate) SqlError → Bool
passes (ok none) = true
passes (ok (some g)) = not g.blocked
passes (err e) = false

pub data Request : Type 0 where
  create_request : (user : ℕ) (role : String) (p : CreateServer) → Request
  start_request redeploy_request stop_request delete_request : (user id : ℕ) → Request
  webhook_request : (id : ℕ) (secret : Option Header) → Request
  github_request : (id : ℕ) (headers : GithubHeaders) (body : String) → Request

-- Nothing was handed on.
abbrev pub Unqueued : Site → Site → Type 0
Unqueued s after = (after.channel ≡ s.channel) × (after.queue ≡ s.queue)

module _ (payload : Job → Value) (gate : World → ℕ → Result (Option TrustPlacementGate) SqlError)
    (server_quota : ℕ → Option ℤ) (hmac : String → String → String) (db_now next_id next_row : ℕ)
    (api_key webhook_secret : String) where
  -- The job was sent, and is the queue's new row.
  abbrev pub Queued : Job → Site → Site → Type 0
  Queued j s after =
      (after.channel ≡ s.channel ++ j ∷ [])
      × (after.queue ≡ s.queue ++ queued_row next_row (payload j) ∷ [])

  unfoldable pub handle : Request → Site → Site
  handle (create_request user role p) s =
      (create_server payload gate server_quota db_now next_id next_row api_key webhook_secret user
        role p s).1
  handle (start_request user id) s = (start_server payload gate next_row user id s).1
  handle (redeploy_request user id) s = (redeploy_server payload gate next_row user id s).1
  handle (stop_request user id) s = (stop_server payload gate next_row user id s).1
  handle (delete_request user id) s = (delete_server payload gate next_row user id s).1
  handle (webhook_request id secret) s = (webhook_redeploy payload gate next_row id secret s).1
  handle (github_request id headers body) s =
      (github_webhook payload gate hmac next_row id headers body s).1

  abbrev new_row : ℕ → CreateServer → Server
  new_row user p = created_row payload gate next_id user api_key webhook_secret p

  -- What stands behind a job that a request hands on.
  unfoldable pub Allowed : Request → Site → Job → Type 0
  Allowed (create_request user role p) s j =
      (within_quota payload gate server_quota user role s ≡ ok tt)
      × (passes (gate (inserted payload gate (new_row user p) s).world next_id) ≡ true)
      × (j ≡ start_job payload gate (new_row user p))
  Allowed (start_request user id) s j =
      (r : Server) × (own_server payload gate user id s ≡ some r)
      × (str_eq r.status "running" ≡ false)
      × (passes (gate s.world r.id) ≡ true)
      × (j ≡ start_job payload gate r)
  Allowed (redeploy_request user id) s j =
      (r : Server) × (own_server payload gate user id s ≡ some r)
      × (passes (gate s.world r.id) ≡ true)
      × (j ≡ start_job payload gate r)
  Allowed (stop_request user id) s j =
      (r : Server) × (own_server payload gate user id s ≡ some r)
      × (str_eq r.status "running" ≡ true)
      × (j ≡ stop r.id)
  Allowed (delete_request user id) s j =
      (r : Server) × (own_server payload gate user id s ≡ some r) × (j ≡ delete r.id)
  Allowed (webhook_request id secret) s j =
      (r : Server) × (server_of payload gate id s ≡ some r)
      × (str_eq r.webhook_secret (or_empty (header_text secret)) ≡ true)
      × (passes (gate s.world r.id) ≡ true)
      × (j ≡ start_job payload gate r)
  Allowed (github_request id headers body) s j =
      (r : Server) × (server_of payload gate id s ≡ some r)
      × (signed payload gate hmac r body (or_else headers.signature_256 headers.signature) ≡ ok tt)
      × (passes (gate s.world r.id) ≡ true)
      × (j ≡ start_job payload gate r)

  guarded_cases :
      (x : Result (Option TrustPlacementGate) SqlError) (status : String) (r : Server) (s : Site)
      → Unqueued s (guarded payload gate next_row x status r s).1
        ⊎ ((passes x ≡ true)
            × Queued (start_job payload gate r) s (guarded payload gate next_row x status r s).1)
  unfolding enqueue_job
  guarded_cases (err e) status r s = inl (refl, refl)
  guarded_cases (ok none) status r s = inr (refl, (refl, refl))
  guarded_cases (ok (some g)) status r s = elim (Bool-cases g.blocked) [
    | inl b ↦ inl (rw b (refl, refl))
    | inr b ↦ inr (rw b (refl, (refl, refl)))
  ]

  created_cases :
      (x : Result (Option TrustPlacementGate) SqlError) (r : Server) (s : Site)
      → Unqueued s (after_insert payload gate db_now next_row x r s).1
        ⊎ ((passes x ≡ true)
            × Queued
                (start_job payload gate r)
                s
                (after_insert payload gate db_now next_row x r s).1)
  unfolding enqueue_job
  created_cases (err e) r s = inl (refl, refl)
  created_cases (ok none) r s = inr (refl, (refl, refl))
  created_cases (ok (some g)) r s = elim (Bool-cases g.blocked) [
    | inl b ↦ inl (rw b (refl, refl))
    | inr b ↦ inr (rw b (refl, (refl, refl)))
  ]

  abbrev Handled : Request → Site → Type 0
  Handled q s = Unqueued s (handle q s) ⊎ ((j : Job) × Queued j s (handle q s) × Allowed q s j)

  create_lem :
      (user : ℕ) (role : String) (p : CreateServer) (s : Site)
      → Handled (create_request user role p) s
  unfolding handle create_server Allowed
  create_lem user role p s = elim (Bool-cases (str_eq (trim p.name) "")) [
    | inl e ↦ inl (rw (e, handle, create_server) (refl, refl))
    | inr e ↦ elim (Result-cases (within_quota payload gate server_quota user role s)) [
      | inr (m, w) ↦ inl (rw (e, handle, create_server) (rw w (refl, refl)))
      | inl (u, w) ↦
          let after = inserted payload gate (new_row user p) s in
          elim (created_cases (gate after.world next_id) (new_row user p) after) [
            | inl (c, d) ↦ inl (rw (e, handle, create_server) (rw w (c, d)))
            | inr (t, q) ↦ inr (_, rw (e, handle, create_server) (rw w q), (w, t, refl))
          ]
    ]
  ]

  start_lem : (user id : ℕ) (s : Site) → Handled (start_request user id) s
  unfolding handle start_server Allowed
  start_lem user id s = elim (Option-cases (own_server payload gate user id s)) [
    | inl n ↦ inl (rw (n, handle, start_server) (refl, refl))
    | inr (r, f) ↦ elim (Bool-cases (str_eq r.status "running")) [
      | inl e ↦ inl (rw (f, handle, start_server) (rw e (refl, refl)))
      | inr e ↦ elim (guarded_cases (gate s.world r.id) "starting" r s) [
        | inl u ↦ inl (rw (f, handle, start_server) (rw e u))
        | inr (t, q) ↦ inr (_, rw (f, handle, start_server) (rw e q), (r, f, e, t, refl))
      ]
    ]
  ]

  redeploy_lem : (user id : ℕ) (s : Site) → Handled (redeploy_request user id) s
  unfolding handle redeploy_server Allowed
  redeploy_lem user id s = elim (Option-cases (own_server payload gate user id s)) [
    | inl n ↦ inl (rw (n, handle, redeploy_server) (refl, refl))
    | inr (r, f) ↦ elim (guarded_cases (gate s.world r.id) "redeploying" r s) [
      | inl u ↦ inl (rw (f, handle, redeploy_server) u)
      | inr (t, q) ↦ inr (_, rw (f, handle, redeploy_server) q, (r, f, t, refl))
    ]
  ]

  stop_lem : (user id : ℕ) (s : Site) → Handled (stop_request user id) s
  unfolding handle stop_server Allowed enqueue_job
  stop_lem user id s = elim (Option-cases (own_server payload gate user id s)) [
    | inl n ↦ inl (rw (n, handle, stop_server) (refl, refl))
    | inr (r, f) ↦ elim (Bool-cases (str_eq r.status "running")) [
      | inl e ↦ inr (_, rw (f, handle, stop_server) (rw e (refl, refl)), (r, f, e, refl))
      | inr e ↦ inl (rw (f, handle, stop_server) (rw e (refl, refl)))
    ]
  ]

  delete_lem : (user id : ℕ) (s : Site) → Handled (delete_request user id) s
  unfolding handle delete_server Allowed enqueue_job
  delete_lem user id s = elim (Option-cases (own_server payload gate user id s)) [
    | inl n ↦ inl (rw (n, handle, delete_server) (refl, refl))
    | inr (r, f) ↦ inr (_, rw (f, handle, delete_server) (refl, refl), (r, f, refl))
  ]

  webhook_lem : (id : ℕ) (secret : Option Header) (s : Site) → Handled (webhook_request id secret) s
  unfolding handle webhook_redeploy Allowed
  webhook_lem id secret s = elim (Option-cases (server_of payload gate id s)) [
    | inl n ↦ inl (rw (n, handle, webhook_redeploy) (refl, refl))
    | inr (r, f) ↦ elim (Bool-cases (str_eq r.webhook_secret (or_empty (header_text secret)))) [
      | inr e ↦ inl (rw (f, handle, webhook_redeploy) (rw e (refl, refl)))
      | inl e ↦ elim (guarded_cases (gate s.world r.id) "redeploying" r s) [
        | inl u ↦ inl (rw (f, handle, webhook_redeploy) (rw e u))
        | inr (t, q) ↦ inr (_, rw (f, handle, webhook_redeploy) (rw e q), (r, f, e, t, refl))
      ]
    ]
  ]

  github_lem :
      (id : ℕ) (headers : GithubHeaders) (body : String) (s : Site)
      → Handled (github_request id headers body) s
  unfolding handle github_webhook Allowed
  github_lem id headers body s = elim (Option-cases (server_of payload gate id s)) [
    | inl n ↦ inl (rw (n, handle, github_webhook) (refl, refl))
    | inr (r, f) ↦
        elim (Result-cases
          (signed payload gate hmac r body (or_else headers.signature_256 headers.signature))) [
            | inr (m, w) ↦ inl (rw (f, handle, github_webhook) (rw w (refl, refl)))
            | inl (u, w) ↦ elim (Bool-cases (is_push (header_text headers.event))) [
              | inr e ↦ inl (rw (f, handle, github_webhook) (rw w (rw e (refl, refl))))
              | inl e ↦ elim (guarded_cases (gate s.world r.id) "redeploying" r s) [
                | inl c ↦ inl (rw (f, handle, github_webhook) (rw w (rw e c)))
                | inr (t, q) ↦
                    inr (_, rw (f, handle, github_webhook) (rw w (rw e q)), (r, f, w, t, refl))
              ]
            ]
          ]
  ]

  -- A request hands nothing on, or it sends one job and queues the same job. The job is then a start of a
  -- server whose gate was asked and does not block, a stop or a deletion. A user's request names a server
  -- of the user's own, a start one that does not run, a stop one that runs; a creation is within the user's
  -- quota; and a webhook's secret or signature is that of the server.
  pub handle-Allowed :
      (q : Request) (s : Site)
      → Unqueued s (handle q s) ⊎ ((j : Job) × Queued j s (handle q s) × Allowed q s j)
  handle-Allowed (create_request user role p) s = create_lem user role p s
  handle-Allowed (start_request user id) s = start_lem user id s
  handle-Allowed (redeploy_request user id) s = redeploy_lem user id s
  handle-Allowed (stop_request user id) s = stop_lem user id s
  handle-Allowed (delete_request user id) s = delete_lem user id s
  handle-Allowed (webhook_request id secret) s = webhook_lem id secret s
  handle-Allowed (github_request id headers body) s = github_lem id headers body s
