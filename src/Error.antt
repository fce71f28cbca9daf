-- ===== src/Error.antt =====
-- The errors of the HTTP handlers, backend/src/error.rs, as far as the modelled handlers return them.
use mcp_host.Prelude.{String, Value}
use mcp_host.Trust.Tables.{SqlError}

pub data AppError : Type 0 where
  db : SqlError → AppError
  not_found : AppError
  unauthorized : AppError
  forbidden : AppError
  bad_request : String → AppError
  json_bad_request : Value → AppError
  conflict : String → AppError
  message : String → AppError
