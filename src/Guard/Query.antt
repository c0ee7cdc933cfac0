-- ===== src/Guard/Query.antt =====
-- sql_guard.py, `SQLSecurityGuard.validate_query`: the checks that a query passes before it is
-- sent to an external database.
use cognitive_rag_system.Prelude.{
  ℕ, Bool, not, ◌&&◌, ◌||◌, String, List, [], ◌∷◌, map, length, leb, nat_eq, if◌then◌else◌,
}
use cognitive_rag_system.Text.{
  Text, codes, lower, upper, strip, rstrip_by, text_in, is_empty, is_space, collapse_spaces,
}
use cognitive_rag_system.Text.Regex.{
  Regex, star, cat, alt, boundary, not_after, literal, one_of, plus, found,
}

-- What sqlparse tells of a statement: its text, its type, and the values of its leaf tokens.
pub record Statement : Type 0 where
  pub text : Text
  pub get_type : Text
  pub tokens : List Text

-- The reasons for which an InsecureQueryError is raised.
pub data QueryError : Type 0 where
  empty_query : QueryError
  statement_count : ℕ → QueryError
  disallowed_type : Text → QueryError
  forbidden_keyword : Text → QueryError
  side_effecting : String → QueryError
  dblink_call file_export double_dot four_part sequence_mutation : QueryError

pub data Verdict : Type 0 where
  accepted : Text → Verdict
  rejected : QueryError → Verdict

-- `_FORBIDDEN_KEYWORDS`
unfoldable pub forbidden_keywords : List String
forbidden_keywords =
    "ALTER" ∷ "CALL" ∷ "COPY" ∷ "CREATE" ∷ "DELETE" ∷ "DO" ∷ "DROP" ∷ "EXEC" ∷ "EXECUTE" ∷ "GRANT"
    ∷ "INSERT" ∷ "INTO" ∷ "LOAD" ∷ "MERGE" ∷ "REPLACE" ∷ "REVOKE" ∷ "TRUNCATE" ∷ "UPDATE" ∷ "VACUUM"
    ∷ "ATTACH" ∷ "DETACH" ∷ "PRAGMA" ∷ "REINDEX" ∷ "SHUTDOWN" ∷ []

-- `_SIDE_EFFECTING_FUNCTIONS`
unfoldable pub side_effecting_functions : List String
side_effecting_functions =
    "copy" ∷ "dblink" ∷ "dblink_connect" ∷ "dblink_exec" ∷ "lo_export" ∷ "lo_import" ∷ "nextval"
    ∷ "pg_advisory_lock" ∷ "pg_advisory_lock_shared" ∷ "pg_advisory_xact_lock"
    ∷ "pg_advisory_xact_lock_shared" ∷ "pg_cancel_backend" ∷ "pg_create_restore_point"
    ∷ "pg_logical_emit_message" ∷ "pg_promote" ∷ "pg_notify" ∷ "pg_read_binary_file"
    ∷ "pg_read_file" ∷ "pg_reload_conf" ∷ "pg_rotate_logfile" ∷ "pg_sleep" ∷ "pg_switch_wal"
    ∷ "pg_terminate_backend" ∷ "pg_wal_replay_pause" ∷ "pg_wal_replay_resume" ∷ "set_config"
    ∷ "setval" ∷ "benchmark" ∷ "get_lock" ∷ "load_file" ∷ "master_pos_wait" ∷ "release_lock"
    ∷ "sleep" ∷ "sys_exec" ∷ "dbms_lock.sleep" ∷ "dbms_pipe.send_message" ∷ "dbms_scheduler.run_job"
    ∷ "utl_file.fopen" ∷ "utl_http.request" ∷ "xp_cmdshell" ∷ "sp_executesql" ∷ "openrowset"
    ∷ "opendatasource" ∷ "openquery" ∷ "bulk_insert" ∷ "waitfor" ∷ []

-- `[a-z0-9_]`
unfoldable pub is_name_char : ℕ → Bool
is_name_char c = leb b'a' c && leb c b'z' || leb b'0' c && leb c b'9' || nat_eq c b'_'

-- `\s*\(`
unfoldable pub open_paren : Regex
open_paren = cat (star is_space) (literal "(")

-- `(?<![a-z0-9_])func\s*\(`
unfoldable pub call_of : String → Regex
call_of func = cat (not_after is_name_char) (cat (literal func) open_paren)

-- `(?<![a-z0-9_])dblink[a-z0-9_]*\s*\(`
unfoldable pub dblink_pattern : Regex
dblink_pattern =
    cat (not_after is_name_char) (cat (literal "dblink") (cat (star is_name_char) open_paren))

-- `\binto\s+(?:out|dump)file\b`
unfoldable pub outfile_pattern : Regex
outfile_pattern = cat boundary (
    cat (literal "into")
      (cat (plus is_space) (cat (one_of ("out" ∷ "dump" ∷ [])) (cat (literal "file") boundary))))

-- `".." in normalized_sql`
unfoldable pub double_dot_pattern : Regex
double_dot_pattern = literal ".."

-- `"[^"]+"|[a-z0-9_]+|\[[^\]]+\]`
unfoldable pub name_part : Regex
name_part = alt (cat (literal "\"") (cat (plus (λ c. not (nat_eq c 34))) (literal "\""))) (
    alt (plus is_name_char) (cat (literal "[") (cat (plus (λ c. not (nat_eq c 93))) (literal "]"))))

unfoldable pub four_part_regex : Regex
four_part_regex = cat name_part (
    cat (literal ".")
      (cat name_part (cat (literal ".") (cat name_part (cat (literal ".") name_part)))))

-- `\bnext\s+value\s+for\b`
unfoldable pub next_value_pattern : Regex
next_value_pattern = cat boundary (
    cat (literal "next") (
      cat (plus is_space)
        (cat (literal "value") (cat (plus is_space) (cat (literal "for") boundary)))))

-- The first token whose value is a forbidden keyword, if there is one.
unfoldable pub check_tokens : List Text → Verdict → Verdict
check_tokens [] pass = pass
check_tokens (t ∷ ts) pass =
    let word = strip (upper t) in
    if text_in word (map codes forbidden_keywords)
    then rejected (forbidden_keyword word)
    else check_tokens ts pass

-- The loop over the side-effecting functions.
unfoldable pub check_functions : List String → Text → Verdict → Verdict
check_functions [] sql pass = pass
check_functions (f ∷ fs) sql pass =
    if found (call_of f) sql then rejected (side_effecting f) else check_functions fs sql pass

-- Steps 4 to 7, on the normalised text.
unfoldable pub check_patterns : Text → Verdict → Verdict
check_patterns sql pass =
    if found dblink_pattern sql
    then rejected dblink_call
    else if found outfile_pattern sql
    then rejected file_export
    else if found double_dot_pattern sql
    then rejected double_dot
    else if found four_part_regex sql
    then rejected four_part
    else if found next_value_pattern sql
    then rejected sequence_mutation
    else pass

unfoldable pub normalized_sql : Statement → Text
normalized_sql statement = lower (collapse_spaces statement.text)

-- Steps 2 to 7, for the one statement.
unfoldable pub check_statement : Statement → Text → Verdict
check_statement statement cleaned =
    let kind = upper statement.get_type in
    if not (text_in kind (codes "SELECT" ∷ codes "UNKNOWN" ∷ []))
    then rejected (disallowed_type kind)
    else check_tokens statement.tokens (
        check_functions side_effecting_functions (normalized_sql statement)
          (check_patterns (normalized_sql statement) (accepted cleaned)))

-- `[stmt for stmt in … if str(stmt).strip()]`
unfoldable pub nonblank : List Statement → List Statement
nonblank [] = []
nonblank (s ∷ ss) = if is_empty (strip s.text) then nonblank ss else s ∷ nonblank ss

-- The single-statement check.
unfoldable pub check_single : List Statement → Text → Verdict
check_single (statement ∷ []) cleaned = check_statement statement cleaned
check_single statements cleaned = rejected (statement_count (length statements))

-- `sql_query.strip().rstrip(";")`
unfoldable pub clean_sql : Text → Text
clean_sql sql_query = rstrip_by (λ c. nat_eq c b';') (strip sql_query)

module _ (parse : Text → List Statement) where
  unfoldable pub validate_query : Text → Verdict
  validate_query sql_query =
      if is_empty (strip sql_query)
      then rejected empty_query
      else check_single (nonblank (parse (clean_sql sql_query))) (clean_sql sql_query)
