-- ===== src/Sql.antt =====
-- The errors of the statements and of the rows that they answer with, as sqlx reports them.
use mcp_host.Prelude.{String}

-- `sqlx::Error`, as far as the modelled code tells its cases apart.
pub data SqlError : Type 0 where
  row_not_found : SqlError
  column_not_found : String → SqlError
  -- a column whose type is not that of its field
  column_decode : String → SqlError
  -- the database's own refusal of a statement
  database : String → SqlError
