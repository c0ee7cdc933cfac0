-- ===== src/Guard/Streaming.antt =====
-- What reaches the database, and what comes back.
use cognitive_rag_system.Prelude.{
  ℕ, zero, suc, ◌<◌, Bool, true, false, ◌||◌, ◌≡◌, refl, ap, Option, none, some, List, [], ◌∷◌,
  ◌++◌, length, drop, take-append-drop, length-drop_le, arith, ◌==◌,
}
use cognitive_rag_system.Text.{Text, codes}
use cognitive_rag_system.Guard.Dialect.{
  Dialect, postgresql, mysql, oracle, mssql, sqlite, canonical_dialect,
}
use cognitive_rag_system.Guard.Query.{Statement, Verdict, accepted, rejected, validate_query}
use cognitive_rag_system.Guard.Execute.{
  Command, exec_driver_sql, execute_query, updateability_query, commands, stream, or_default, ran,
  Settings, run_validated, run_on, execute_read_only_query,
}

-- Every row comes back, once and in order.
stream_complete :
    {Row : Type 0} (fuel fetch_size : ℕ) (cursor : List Row)
    → 0 < fetch_size
    → length cursor < fuel
    → stream fuel fetch_size cursor ≡ some cursor
unfolding stream
stream_complete zero fetch_size cursor h k = absurd (omega arith)
stream_complete (suc fuel) zero cursor h k = absurd (omega arith)
stream_complete (suc fuel) (suc n) [] h k = refl
stream_complete (suc fuel) (suc n) (row ∷ rows) h k =
    rw (stream_complete fuel (suc n) (drop n rows) h (omega (arith, length-drop_le n rows)))
      (rw (take-append-drop n rows))

-- The dialects for which the engine itself is told to refuse writes.
abbrev pub enforces_read_only : Dialect → Bool
enforces_read_only postgresql = true
enforces_read_only mysql = true
enforces_read_only oracle = true
enforces_read_only mssql = false
enforces_read_only sqlite = false

abbrev pub is_read_only_command : Command → Bool
is_read_only_command (exec_driver_sql s) =
    s == "SET SESSION CHARACTERISTICS AS TRANSACTION READ ONLY"
    || s == "SET SESSION TRANSACTION READ ONLY"
    || s == "SET TRANSACTION READ ONLY"
is_read_only_command _ = false

-- Is a read-only command sent before the first query?
abbrev pub read_only_first : List Command → Bool
read_only_first [] = false
read_only_first (execute_query sql ∷ cs) = false
read_only_first (c ∷ cs) = is_read_only_command c || read_only_first cs

-- The queries among the commands, in their order.
abbrev pub queries : List Command → List Text
queries [] = []
queries (execute_query sql ∷ cs) = sql ∷ queries cs
queries (c ∷ cs) = queries cs

read_only_first-commands :
    (d : Dialect) (timeout : ℕ) (has : Bool) (sql : Text)
    → read_only_first (commands d timeout has sql) ≡ enforces_read_only d
unfolding commands
read_only_first-commands oracle timeout true sql = refl
read_only_first-commands oracle timeout false sql = refl
read_only_first-commands _ timeout has sql = refl

-- The queries that the program puts to the database by itself.
abbrev pub own_queries : Dialect → List Text
own_queries mssql =
    codes "SELECT CAST(DATABASEPROPERTYEX(DB_NAME(), 'Updateability') AS VARCHAR)" ∷ []
own_queries _ = []

queries-commands :
    (d : Dialect) (timeout : ℕ) (has : Bool) (sql : Text)
    → queries (commands d timeout has sql) ≡ own_queries d ++ (sql ∷ [])
unfolding commands updateability_query
queries-commands oracle timeout true sql = refl
queries-commands oracle timeout false sql = refl
queries-commands _ timeout has sql = refl

module _ {Row : Type 0} (parse : Text → List Statement) (rows_of : Text → List Row)
    (settings : Settings) where
  run_validated-ran :
      (d : Dialect) (timeout fetch_size : ℕ) (has : Bool) (v : Verdict) {cs : List Command}
      {rows : Option (List Row)}
      → run_validated parse rows_of settings d timeout fetch_size has v ≡ ran cs rows
      → (sql : Text) × (v ≡ accepted sql) × (commands d timeout has sql ≡ cs)
  run_validated-ran d timeout fetch_size has (accepted sql) h = (sql, refl, cc)
  run_validated-ran d timeout fetch_size has (rejected e) h = cc

  run_on-ran :
      (o : Option Dialect) (sql : Text) (timeout_ms batch_size : Option ℕ) (has : Bool)
      {cs : List Command} {rows : Option (List Row)}
      → run_on parse rows_of settings o sql timeout_ms batch_size has ≡ ran cs rows
      → (d : Dialect) × (checked : Text) × (o ≡ some d)
        × (validate_query parse sql ≡ accepted checked)
        × (commands d (or_default timeout_ms settings.statement_timeout_ms) has checked ≡ cs)
  unfolding run_on
  run_on-ran none sql timeout_ms batch_size has h = cc
  run_on-ran (some d) sql timeout_ms batch_size has h =
      let (checked, ok, sent) =
        run_validated-ran d (or_default timeout_ms settings.statement_timeout_ms)
          (or_default batch_size settings.fetch_batch_size) has (validate_query parse sql) h in
      (d, checked, refl, ok, sent)

  -- Whenever commands are sent to the database, the dialect is supported and the guard accepted a
  -- text; this text is executed once and as the last query, and the only other query is the fixed
  -- question for the Updateability that SQL Server is asked before it. For PostgreSQL, MySQL and
  -- Oracle a read-only command stands before the first query; for SQL Server and SQLite none does.
  pub execute_read_only_query-sent :
      (dialect sql : Text) (timeout_ms batch_size : Option ℕ) (has : Bool) (cs : List Command)
      (rows : Option (List Row))
      → execute_read_only_query parse rows_of settings dialect sql timeout_ms batch_size has
        ≡ ran cs rows
      → (d : Dialect) × (checked : Text) × (canonical_dialect dialect ≡ some d)
        × (validate_query parse sql ≡ accepted checked)
        × (queries cs ≡ own_queries d ++ (checked ∷ []))
        × (read_only_first cs ≡ enforces_read_only d)
  unfolding execute_read_only_query
  execute_read_only_query-sent dialect sql timeout_ms batch_size has cs rows h =
      let (d, checked, known, ok, sent) =
        run_on-ran (canonical_dialect dialect) sql timeout_ms batch_size has h in
      let timeout : ℕ = or_default timeout_ms settings.statement_timeout_ms in
      (
        d,
        checked,
        known,
        ok,
        rw (← sent) (queries-commands d timeout has checked),
        rw (← sent) (read_only_first-commands d timeout has checked),
      )

  -- For a supported dialect and an accepted query, with a positive batch size, the stream ends and
  -- yields all the rows of the accepted text in their order.
  pub execute_read_only_query_complete :
      (dialect sql checked : Text) (d : Dialect) (timeout_ms batch_size : Option ℕ) (has : Bool)
      → canonical_dialect dialect ≡ some d
      → validate_query parse sql ≡ accepted checked
      → 0 < or_default batch_size settings.fetch_batch_size
      → execute_read_only_query parse rows_of settings dialect sql timeout_ms batch_size has
        ≡ ran
            (commands d (or_default timeout_ms settings.statement_timeout_ms) has checked)
            (some (rows_of checked))
  unfolding execute_read_only_query run_on
  execute_read_only_query_complete dialect sql checked d timeout_ms batch_size has known ok size =
      rw (known, ok)
        (ap (ran (commands d (or_default timeout_ms settings.statement_timeout_ms) has checked)) (
          stream_complete (suc (length (rows_of checked)))
            (or_default batch_size settings.fetch_batch_size) (rows_of checked) size (omega arith)))
