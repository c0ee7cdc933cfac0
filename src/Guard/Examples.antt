-- ===== src/Guard/Examples.antt =====
-- The query guard at concrete queries.
use cognitive_rag_system.Prelude.Sort.{sort_by}
use cognitive_rag_system.Prelude.{
  ◌++◌, ℕ, ◌≡◌, ◌≢◌, ◌↔◌, refl, Bool, true, false, Option, none, some, String, List, [], ◌∷◌, arith,
}
use cognitive_rag_system.Text.Unicode.{in_ranges, wide_spaces}
use cognitive_rag_system.Text.{
  Text, codes, lower, upper, strip, text_in, collapse_spaces, rstrip_by, is_space,
}
use cognitive_rag_system.Text.Regex.{found}
use cognitive_rag_system.Guard.Query.{
  Statement, Verdict, accepted, rejected, forbidden_keyword, side_effecting, four_part,
  forbidden_keywords, side_effecting_functions, is_name_char, open_paren, call_of, dblink_pattern,
  outfile_pattern, double_dot_pattern, name_part, four_part_regex, next_value_pattern, check_tokens,
  check_functions, check_patterns, normalized_sql, check_statement, nonblank, check_single,
  clean_sql, validate_query,
}
use cognitive_rag_system.Guard.Rejects.{validate_query_rejects_calls}
use cognitive_rag_system.Guard.Dialect.{
  Dialect, postgresql, canonical_dialect, dialect_value, lookup_alias, dialect_aliases,
}
use cognitive_rag_system.Guard.Target.{
  IpAddress, allowed, refused, private_address, hard_blocked_ips, hard_blocked_hosts, split_commas,
  strip_dots, csv_items, csv_values, allowed_networks, is_forbidden, is_restricted,
  explicitly_allowed, check_addresses, text_le, check_resolved, target_host, permitted,
  validate_network_target, validate_canonical_target, validate_db_target,
}
use cognitive_rag_system.Guard.Network.{IsOpenTo, may, validate_db_target-allowed_iff}
use cognitive_rag_system.Guard.Shapes
use cognitive_rag_system.Guard.Keywords.{spells, validate_query_rejects_keywords}
use cognitive_rag_system.Guard.Escapes.{validate_query_rejects_escapes}
use cognitive_rag_system.Guard.Execute.{
  Command, begin, updateability_query, exec_setting, execute_query, ran, Settings, commands, stream,
  or_default, run_on, execute_read_only_query,
}
use cognitive_rag_system.Guard.Streaming.{
  enforces_read_only, read_only_first, queries, own_queries, execute_read_only_query-sent,
  execute_read_only_query_complete,
}
use cognitive_rag_system.Text.{contains, starts_with, split_on}
use cognitive_rag_system.Guard.Urls.{
  decimal_from, decimal, DbConfig, swap_prefix, with_intent, normalise_url, auth_part, authority,
  built_url, url_for, safe_build_db_url, SplitUrl, sensitive_query_keys, lowered_key, is_sensitive,
  mask_query, bracketed, masked_netloc, mask_parsed, mask_db_url,
}

program : Unit {0}
unfolding decimal_from decimal swap_prefix with_intent normalise_url auth_part authority built_url
    url_for safe_build_db_url sensitive_query_keys lowered_key is_sensitive mask_query bracketed
    masked_netloc mask_parsed mask_db_url contains starts_with split_on lower upper strip text_in
    collapse_spaces found forbidden_keywords side_effecting_functions is_name_char open_paren
    call_of dblink_pattern outfile_pattern double_dot_pattern name_part four_part_regex
    next_value_pattern check_tokens check_functions check_patterns normalized_sql check_statement
    nonblank check_single clean_sql validate_query rstrip_by is_space canonical_dialect lookup_alias
    dialect_aliases dialect_value hard_blocked_ips hard_blocked_hosts split_commas strip_dots
    csv_items csv_values allowed_networks is_forbidden is_restricted explicitly_allowed
    check_addresses text_le check_resolved target_host permitted validate_network_target
    validate_canonical_target validate_db_target commands stream or_default run_on
    execute_read_only_query sort_by
program = tt

-- A parser that sees one SELECT with one token.
abbrev parse_select : Text → List Statement
parse_select s = record { text = s; get_type = codes "SELECT"; tokens = s ∷ [] } ∷ []

abbrev query : String → Verdict
query s = validate_query parse_select (codes s)

accepts_plain : query " SELECT name FROM staff; " ≡ accepted (codes "SELECT name FROM staff")
unfolding program
accepts_plain = refl

rejects_sleep : query "SELECT pg_sleep (5)" ≡ rejected (side_effecting "pg_sleep")
unfolding program
rejects_sleep = refl

-- A no-break space counts as white space.
rejects_wide_space :
    validate_query parse_select (codes "SELECT pg_sleep" ++ (160 ∷ codes "(5)"))
    ≡ rejected (side_effecting "pg_sleep")
unfolding program in_ranges wide_spaces
rejects_wide_space = refl

rejects_four_part : query "SELECT * FROM srv.db.dbo.staff" ≡ rejected four_part
unfolding program
rejects_four_part = refl

rejects_keyword : query "drop" ≡ rejected (forbidden_keyword (codes "DROP"))
unfolding program
rejects_keyword = refl

-- A comment, or quotes round the name, hide the call from the patterns.
accepts_comment : query "SELECT pg_sleep/**/(5)" ≡ accepted (codes "SELECT pg_sleep/**/(5)")
unfolding program
accepts_comment = refl

accepts_quoted : query "SELECT \"pg_sleep\"(5)" ≡ accepted (codes "SELECT \"pg_sleep\"(5)")
unfolding program
accepts_quoted = refl

validate_query_rejects_keywords_example : query "Delete" ≢ accepted (codes "Delete")
unfolding program spells
validate_query_rejects_keywords_example =
    validate_query_rejects_keywords parse_select (codes "Delete") (codes "Delete")
      (record { text = codes "Delete"; get_type = codes "SELECT"; tokens = codes "Delete" ∷ [] })
      "DELETE" [] (codes "Delete") [] refl refl refl refl

validate_query_rejects_escapes_example :
    query "SELECT 1 INTO  DumpFile 'x'" ≢ accepted (codes "SELECT 1 INTO  DumpFile 'x'")
unfolding program
validate_query_rejects_escapes_example =
    validate_query_rejects_escapes parse_select (codes "SELECT 1 INTO  DumpFile 'x'")
      (codes "SELECT 1 INTO  DumpFile 'x'")
      (record {
        text = codes "SELECT 1 INTO  DumpFile 'x'";
        get_type = codes "SELECT";
        tokens = codes "SELECT 1 INTO  DumpFile 'x'" ∷ [];
      })
      refl
      (Shapes.file_export (codes "select 1 ") b' ' [] Shapes.dumpfile (codes " 'x'") refl refl refl)

validate_query_rejects_calls_example :
    query "SELECT pg_sleep (5)" ≢ accepted (codes "SELECT pg_sleep (5)")
unfolding program
validate_query_rejects_calls_example =
    validate_query_rejects_calls parse_select (codes "SELECT pg_sleep (5)")
      (codes "SELECT pg_sleep (5)")
      (record {
        text = codes "SELECT pg_sleep (5)";
        get_type = codes "SELECT";
        tokens = codes "SELECT pg_sleep (5)" ∷ [];
      })
      "pg_sleep" (codes "select ") (codes " ") (codes "5)") refl refl refl refl refl

abbrev intranet : IpAddress
intranet = record {
  text = codes "10.0.0.7";
  is_link_local = false;
  is_unspecified = false;
  is_multicast = false;
  is_private = true;
  is_loopback = false;
  is_site_local = false;
}

abbrev host_of : Text → Option Text
host_of url = some (codes "DB.corp.")

abbrev resolver : Text → Option (List IpAddress)
resolver host = some (intranet ∷ intranet ∷ [])

abbrev no_network : Text → Option (IpAddress → Bool)
no_network item = none

-- A private address is refused, unless the settings name the host.
refuses_private :
    validate_db_target host_of resolver no_network [] [] (codes "postgres") (codes "db_url")
    ≡ refused (private_address intranet)
unfolding program
refuses_private = refl

allows_listed :
    validate_db_target host_of resolver no_network
      (codes "a, db.corp")
      []
      (codes "Postgres")
      (codes "db_url")
    ≡ allowed (codes "postgresql") (codes "10.0.0.7" ∷ [])
unfolding program
allows_listed = refl

postgres_known : canonical_dialect (codes "Postgres") ≡ some postgresql
unfolding program
postgres_known = refl

validate_db_target-allowed_iff_example :
    (validate_db_target host_of resolver no_network
        (codes "a, db.corp")
        []
        (codes "Postgres")
        (codes "db_url")
      ≡ allowed (dialect_value postgresql) (codes "10.0.0.7" ∷ []))
    ↔ IsOpenTo
        (may host_of resolver no_network (codes "a, db.corp") [])
        resolver
        (target_host (host_of (codes "db_url")))
        (codes "10.0.0.7" ∷ [])
validate_db_target-allowed_iff_example =
    validate_db_target-allowed_iff host_of resolver no_network (codes "a, db.corp") [] postgresql
      (codes "Postgres") (codes "db_url") (codes "10.0.0.7" ∷ []) postgres_known (λ e. cc e)

abbrev settings : Settings
settings = record { statement_timeout_ms = 15000; fetch_batch_size = 2 }

abbrev three_rows : Text → List ℕ
three_rows sql = 7 ∷ 8 ∷ 9 ∷ []

abbrev select_one : Text
select_one = codes "SELECT 1"

abbrev on_mssql : List Command
on_mssql =
    begin
    ∷ execute_query updateability_query
    ∷ exec_setting "SET LOCK_TIMEOUT " 15000
    ∷ execute_query select_one
    ∷ []

runs_mssql :
    execute_read_only_query parse_select three_rows settings
      (codes "mssql")
      select_one
      none
      none
      false
    ≡ ran on_mssql (some (7 ∷ 8 ∷ 9 ∷ []))
unfolding program
runs_mssql = refl

execute_read_only_query-sent_example :
    (d : Dialect) × (checked : Text) × (canonical_dialect (codes "mssql") ≡ some d)
    × (validate_query parse_select select_one ≡ accepted checked)
    × (queries on_mssql ≡ own_queries d ++ (checked ∷ []))
    × (read_only_first on_mssql ≡ enforces_read_only d)
execute_read_only_query-sent_example =
    execute_read_only_query-sent parse_select three_rows settings (codes "mssql") select_one none
      none false on_mssql (some (7 ∷ 8 ∷ 9 ∷ [])) runs_mssql

execute_read_only_query_complete_example :
    execute_read_only_query parse_select three_rows settings
      (codes "Postgres")
      select_one
      none
      none
      false
    ≡ ran
        (commands postgresql (or_default none 15000) false select_one)
        (some (three_rows select_one))
unfolding program
execute_read_only_query_complete_example =
    execute_read_only_query_complete parse_select three_rows settings (codes "Postgres") select_one
      select_one postgresql none none false refl refl (omega arith)

abbrev staff_db : DbConfig
staff_db = record {
  db_url = none;
  username = some (codes "ann");
  password = some (codes "pw");
  host = some (codes "db");
  port = none;
  database = some (codes "staff");
  service_name = none;
}

builds_mysql :
    safe_build_db_url (λ s. s) true (codes "MariaDB ") staff_db
    ≡ some (codes "mysql+pymysql://ann:pw@db:3306/staff")
unfolding program
builds_mysql = refl

normalises_postgres :
    safe_build_db_url
      (λ s. s)
      true
      (codes "postgres")
      (record staff_db { db_url = some (codes "postgres://db/staff") })
    ≡ some (codes "postgresql+psycopg2://db/staff")
unfolding program
normalises_postgres = refl

asks_read_only :
    safe_build_db_url
      (λ s. s)
      true
      (codes "mssql")
      (record staff_db { db_url = some (codes "mssql://db/staff") })
    ≡ some (codes "mssql://db/staff?ApplicationIntent=ReadOnly")
unfolding program
asks_read_only = refl

abbrev parsed_url : SplitUrl
parsed_url = record {
  scheme = codes "mysql";
  username = some (codes "ann");
  password = some (codes "pw");
  hostname = some (codes "::1");
  port = some 3306;
  path = codes "/staff";
  query = (codes "Api-Key", codes "k") ∷ [];
}

masks_password :
    mask_db_url
      (λ u. some parsed_url)
      (λ s. s)
      (λ scheme netloc path query. netloc)
      (codes "mysql://ann:pw@[::1]:3306/staff")
    ≡ codes "ann:***@[::1]:3306"
unfolding program
masks_password = refl

masks_key : mask_query parsed_url.query ≡ (codes "Api-Key", codes "***") ∷ []
unfolding program
masks_key = refl

masks_unparsed :
    mask_db_url (λ u. none) (λ s. s) (λ scheme netloc path query. netloc) (codes "x:pw@[")
    ≡ codes "x://***"
unfolding program
masks_unparsed = refl
