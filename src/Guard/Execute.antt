-- ===== src/Guard/Execute.antt =====
-- sql_guard.py, `execute_read_only_query`: the commands that reach the database, in their order,
-- and the rows that are streamed back in batches.
use cognitive_rag_system.Prelude.{
  ℕ, zero, suc, Bool, String, Option, none, some, List, [], ◌∷◌, ◌++◌, length, take, drop, nat_eq,
  if◌then◌else◌,
}
use cognitive_rag_system.Text.{Text, codes}
use cognitive_rag_system.Guard.Dialect.{
  Dialect, postgresql, mysql, oracle, mssql, sqlite, canonical_dialect,
}
use cognitive_rag_system.Guard.Query.{
  Statement, QueryError, Verdict, accepted, rejected, validate_query,
}

pub data Command : Type 0 where
  begin commit : Command
  -- `exec_driver_sql` of a fixed text, and of a text that ends in a number
  exec_driver_sql : String → Command
  exec_setting : String → ℕ → Command
  -- `driver_conn.call_timeout = timeout`
  call_timeout : ℕ → Command
  -- `conn.execute(text(sql))`
  execute_query : Text → Command

-- The question that SQL Server is asked; its answer is only logged.
unfoldable pub updateability_query : Text
updateability_query = codes "SELECT CAST(DATABASEPROPERTYEX(DB_NAME(), 'Updateability') AS VARCHAR)"

-- What the driver is asked to do before the query, and the query.
unfoldable pub commands : Dialect → ℕ → (has_call_timeout : Bool) → Text → List Command
commands postgresql timeout has sql =
    begin
    ∷ exec_driver_sql "SET SESSION CHARACTERISTICS AS TRANSACTION READ ONLY"
    ∷ exec_setting "SET LOCAL statement_timeout = " timeout
    ∷ execute_query sql
    ∷ []
commands mysql timeout has sql =
    exec_driver_sql "SET SESSION TRANSACTION READ ONLY"
    ∷ exec_setting "SET SESSION MAX_EXECUTION_TIME = " timeout
    ∷ commit
    ∷ begin
    ∷ execute_query sql
    ∷ []
commands oracle timeout has sql =
    (if has then call_timeout timeout ∷ [] else [])
    ++ (begin ∷ exec_driver_sql "SET TRANSACTION READ ONLY" ∷ execute_query sql ∷ [])
commands mssql timeout has sql =
    begin
    ∷ execute_query updateability_query
    ∷ exec_setting "SET LOCK_TIMEOUT " timeout
    ∷ execute_query sql
    ∷ []
commands sqlite timeout has sql = begin ∷ execute_query sql ∷ []

-- `while True: rows = result.mappings().fetchmany(fetch_size); if not rows: break; yield …`.
-- `none` means that the fuel ran out.
module _ {ℓ} {Row : Type ℓ} where
  abbrev emit : List Row → Option (List Row) → Option (List Row)
  emit [] more = some []
  emit (row ∷ rows) none = none
  emit (row ∷ rows) (some more) = some ((row ∷ rows) ++ more)

  unfoldable pub stream : ℕ → ℕ → List Row → Option (List Row)
  stream zero fetch_size cursor = none
  stream (suc fuel) fetch_size cursor =
      let rest = stream fuel fetch_size (drop fetch_size cursor) in
      emit (take fetch_size cursor) rest

-- `timeout_ms or settings…`: zero counts as not given.
unfoldable pub or_default : Option ℕ → ℕ → ℕ
or_default none d = d
or_default (some n) d = if nat_eq n 0 then d else n

pub data Outcome (Row : Type 0) : Type 0 where
  unsupported : Outcome Row
  insecure : QueryError → Outcome Row
  -- the commands sent, and the rows yielded
  ran : List Command → Option (List Row) → Outcome Row

pub record Settings : Type 0 where
  pub statement_timeout_ms : ℕ
  pub fetch_batch_size : ℕ

-- `rows_of` is the database: the rows that it answers a query with.
module _ {Row : Type 0} (parse : Text → List Statement) (rows_of : Text → List Row)
    (settings : Settings) where
  abbrev pub run_validated : Dialect → ℕ → ℕ → Bool → Verdict → Outcome Row
  run_validated canonical timeout fetch_size has (rejected e) = insecure e
  run_validated canonical timeout fetch_size has (accepted sql) =
      ran (commands canonical timeout has sql)
        (stream (suc (length (rows_of sql))) fetch_size (rows_of sql))

  unfoldable pub run_on : Option Dialect → Text → Option ℕ → Option ℕ → Bool → Outcome Row
  run_on none sql timeout_ms batch_size has = unsupported
  run_on (some canonical) sql timeout_ms batch_size has =
      run_validated canonical (or_default timeout_ms settings.statement_timeout_ms)
        (or_default batch_size settings.fetch_batch_size) has (validate_query parse sql)

  unfoldable pub execute_read_only_query :
      (dialect sql_query : Text) (timeout_ms batch_size : Option ℕ) (has_call_timeout : Bool)
      → Outcome Row
  execute_read_only_query dialect sql_query timeout_ms batch_size has =
      run_on (canonical_dialect dialect) sql_query timeout_ms batch_size has
