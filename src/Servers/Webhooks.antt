-- ===== src/Servers/Webhooks.antt =====
-- backend/src/servers.rs: redeployment by webhook. A header is absent, or a text, or not a text; `hmac` is
-- the signature of a body under a secret, in hexadecimal digits.
use mcp_host.Prelude.{
  ℕ, Bool, Option, none, some, [], ◌∷◌, String, Value, ◌==◌, str_eq, format, find, if◌then◌else◌,
  Result, ok, err,
}
use mcp_host.Trust.Outcome.{or_else}
use mcp_host.Error.{AppError, not_found, bad_request, unauthorized}
use mcp_host.Trust.Tables.{SqlError}
use mcp_host.Trust.Gate.{TrustPlacementGate}
use mcp_host.JobQueue.{Job, Server, World}
use mcp_host.JobQueue.Queue.{Site}
use mcp_host.Servers.Handlers.{StatusCode, ok_status, guarded}

pub data Header : Type 0 where
  text : String → Header
  opaque : Header

-- `and_then(|v| v.to_str().ok())`
abbrev pub header_text : Option Header → Option String
header_text none = none
header_text (some opaque) = none
header_text (some (text s)) = some s

abbrev pub or_empty : Option String → String
or_empty none = ""
or_empty (some s) = s

-- The headers of a delivery from GitHub.
pub record GithubHeaders : Type 0 where
  pub signature_256 : Option Header
  pub signature : Option Header
  pub event : Option Header

abbrev pub is_push : Option String → Bool
is_push none = Bool.false
is_push (some e) = str_eq e "push"

module _ (payload : Job → Value)
    (gate : World → ℕ → Result (Option TrustPlacementGate) SqlError) where
  abbrev pub server_of : ℕ → Site → Option Server
  server_of id s = find (λ r. r.id == id) s.world.servers

  unfoldable pub webhook_redeploy :
      (next_row : ℕ) → ℕ → Option Header → Site → Result StatusCode AppError × Site
  webhook_redeploy next_row id secret s = elim (server_of id s) [
    | none ↦ (err not_found, s)
    | some r ↦
        if str_eq r.webhook_secret (or_empty (header_text secret))
        then guarded payload gate next_row (gate s.world r.id) "redeploying" r s
        else (err unauthorized, s)
  ]

  abbrev pub signed :
      (hmac : String → String → String)
      → Server
      → String
      → Option Header
      → Result (Unit {0}) AppError
  signed hmac r body none = err (bad_request "Missing signature")
  signed hmac r body (some opaque) = err (bad_request "Bad signature")
  signed hmac r body (some (text sig)) =
      if str_eq (format ("sha256=" ∷ hmac r.webhook_secret body ∷ [])) sig
      then ok tt
      else err unauthorized

  unfoldable pub github_webhook :
      (hmac : String → String → String) (next_row : ℕ)
      → ℕ
      → GithubHeaders
      → String
      → Site
      → Result StatusCode AppError × Site
  github_webhook hmac next_row id headers body s = elim (server_of id s) [
    | none ↦ (err not_found, s)
    | some r ↦ elim (signed hmac r body (or_else headers.signature_256 headers.signature)) [
      | err e ↦ (err e, s)
      | ok _ ↦
          if is_push (header_text headers.event)
          then guarded payload gate next_row (gate s.world r.id) "redeploying" r s
          else (ok ok_status, s)
    ]
  ]
