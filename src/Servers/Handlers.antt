-- ===== src/Servers/Handlers.antt =====
-- backend/src/servers.rs: creation, start, stop, deletion and redeployment by a user. `next_id` and
-- `next_row` are the numbers of the next server and the next row of the queue.
use mcp_host.Prelude.{
  ℕ, Bool, false, Option, none, some, List, [], ◌∷◌, ◌++◌, String, Value, ◌==◌, ◌&&◌, str_eq, trim,
  format, length, find, select, ltb_ℤ, ℤ, as_i32, if◌then◌else◌, Result, ok, err,
}
use mcp_host.Error.{AppError, not_found, bad_request, conflict}
use mcp_host.Trust.Tables.{SqlError, row_not_found}
use mcp_host.Trust.Gate.{TrustPlacementGate, blocked_status}
use mcp_host.JobQueue.{Job, start, stop, delete, Server, World, set_status}
use mcp_host.JobQueue.Queue.{Site, submit}

pub record CreateServer : Type 0 where
  pub name : String
  pub server_type : String
  pub config : Option Value
  pub use_gpu : Option Bool
  pub organization_id : Option ℕ

pub record ServerInfo : Type 0 where
  pub id : ℕ
  pub name : String
  pub server_type : String
  pub status : String
  pub use_gpu : Bool
  pub organization_id : Option ℕ
  pub api_key : String
  pub webhook_secret : String
  pub manifest : Option Value
  pub created_at : ℕ

-- The answers of the other handlers.
pub data StatusCode : Type 0 where
  accepted no_content ok_status : StatusCode

abbrev join : List String → String
join [] = ""
join (s ∷ []) = s
join (s ∷ t ∷ ts) = format (s ∷ "," ∷ join (t ∷ ts) ∷ [])

unfoldable pub trust_gate_message : TrustPlacementGate → String
trust_gate_message gate = by_notes gate.notes
  where
    by_notes : List String → String
    by_notes [] = "trust registry lifecycle prevents launch"
    by_notes (n ∷ ns) =
        format ("trust registry lifecycle prevents launch (" ∷ join (n ∷ ns) ∷ ")" ∷ [])

-- `set_status_guard`: a failure is logged.
abbrev pub with_status : ℕ → String → Site → Site
with_status id status s =
    let w = s.world in record s { world = record w { servers = set_status id status w.servers } }

abbrev or_false : Option Bool → Bool
or_false none = false
or_false (some b) = b

-- `gate` is `evaluate_placement_gate` on the tables of the site.
module _ (payload : Job → Value)
    (gate : World → ℕ → Result (Option TrustPlacementGate) SqlError) where
  abbrev pub start_job : Server → Job
  start_job r = start r.id r.server_type r.config r.api_key r.use_gpu

  -- A start that the gate has let through.
  abbrev pub launch : (next_row : ℕ) → String → Server → Site → Result StatusCode AppError × Site
  launch next_row status r s =
      (ok accepted, submit payload next_row (start_job r) (with_status r.id status s))

  -- From `trust_gate_for` on, what the handlers that start a server have in common.
  abbrev pub guarded :
      (next_row : ℕ)
      → Result (Option TrustPlacementGate) SqlError
      → String
      → Server
      → Site
      → Result StatusCode AppError × Site
  guarded next_row (err e) status r s = (err (AppError.db e), s)
  guarded next_row (ok none) status r s = launch next_row status r s
  guarded next_row (ok (some g)) status r s =
      if g.blocked
      then (err (conflict (trust_gate_message g)), with_status r.id (blocked_status g) s)
      else launch next_row status r s

  -- WHERE id = $1 AND owner_id = $2
  abbrev pub own_server : ℕ → ℕ → Site → Option Server
  own_server user id s = find (λ r. (r.id == id) && (r.owner_id == user)) s.world.servers

  unfoldable pub start_server : (next_row : ℕ) → ℕ → ℕ → Site → Result StatusCode AppError × Site
  start_server next_row user id s = elim (own_server user id s) [
    | none ↦ (err not_found, s)
    | some r ↦
        if str_eq r.status "running"
        then (err (bad_request "Server already running"), s)
        else guarded next_row (gate s.world r.id) "starting" r s
  ]

  unfoldable pub redeploy_server : (next_row : ℕ) → ℕ → ℕ → Site → Result StatusCode AppError × Site
  redeploy_server next_row user id s = elim (own_server user id s) [
    | none ↦ (err not_found, s)
    | some r ↦ guarded next_row (gate s.world r.id) "redeploying" r s
  ]

  unfoldable pub stop_server : (next_row : ℕ) → ℕ → ℕ → Site → Result StatusCode AppError × Site
  stop_server next_row user id s = elim (own_server user id s) [
    | none ↦ (err not_found, s)
    | some r ↦
        if str_eq r.status "running"
        then (ok accepted, submit payload next_row (stop r.id) (with_status r.id "stopping" s))
        else (err (bad_request "Server not running"), s)
  ]

  unfoldable pub delete_server : (next_row : ℕ) → ℕ → ℕ → Site → Result StatusCode AppError × Site
  delete_server next_row user id s = elim (own_server user id s) [
    | none ↦ (err not_found, s)
    | some r ↦ (ok no_content, submit payload next_row (delete r.id) s)
  ]

  -- The quota of a user who is no administrator; `server_quota` is the user's, if there is such a user.
  abbrev pub within_quota :
      (server_quota : ℕ → Option ℤ) → ℕ → String → Site → Result (Unit {0}) AppError
  within_quota server_quota user role s =
      if str_eq role "admin" then ok tt else by_quota (server_quota user)
    where
      by_quota : Option ℤ → Result (Unit {0}) AppError
      by_quota none = err (AppError.db row_not_found)
      by_quota (some quota) =
          if ltb_ℤ (as_i32 (length (select (λ r. r.owner_id == user) s.world.servers))) quota
          then ok tt
          else err (bad_request "Server quota exceeded")

  abbrev pub created_row :
      (next_id : ℕ) → ℕ → (api_key webhook_secret : String) → CreateServer → Server
  created_row next_id user api_key webhook_secret p = record {
    id = next_id;
    owner_id = user;
    name = p.name;
    server_type = p.server_type;
    config = p.config;
    status = "creating";
    api_key = api_key;
    webhook_secret = webhook_secret;
    use_gpu = or_false p.use_gpu;
    organization_id = p.organization_id;
  }

  abbrev pub info_of : (db_now : ℕ) → String → Server → ServerInfo
  info_of db_now status r = record {
    id = r.id;
    name = r.name;
    server_type = r.server_type;
    status = status;
    use_gpu = r.use_gpu;
    organization_id = r.organization_id;
    api_key = r.api_key;
    webhook_secret = r.webhook_secret;
    manifest = none;
    created_at = db_now;
  }

  abbrev pub inserted : Server → Site → Site
  inserted r s = let w = s.world in record s { world = record w { servers = w.servers ++ r ∷ [] } }

  -- What follows the insert of the row.
  abbrev pub after_insert :
      (db_now next_row : ℕ)
      → Result (Option TrustPlacementGate) SqlError
      → Server
      → Site
      → Result ServerInfo AppError × Site
  after_insert db_now next_row (err e) r s = (err (AppError.db e), s)
  after_insert db_now next_row (ok none) r s =
      (ok (info_of db_now r.status r), submit payload next_row (start_job r) s)
  after_insert db_now next_row (ok (some g)) r s =
      if g.blocked
      then (ok (info_of db_now (blocked_status g) r), with_status r.id (blocked_status g) s)
      else (ok (info_of db_now r.status r), submit payload next_row (start_job r) s)

  unfoldable pub create_server :
      (server_quota : ℕ → Option ℤ) (db_now next_id next_row : ℕ) (api_key webhook_secret : String)
      → ℕ
      → String
      → CreateServer
      → Site
      → Result ServerInfo AppError × Site
  create_server server_quota db_now next_id next_row api_key webhook_secret user role p s =
      if str_eq (trim p.name) ""
      then (err (bad_request "Name is required"), s)
      else elim (within_quota server_quota user role s) [
        | err e ↦ (err e, s)
        | ok _ ↦
            let r = created_row next_id user api_key webhook_secret p in
            let after = inserted r s in
            after_insert db_now next_row (gate after.world next_id) r after
      ]
