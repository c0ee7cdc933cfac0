-- ===== src/Guard/Dialect.antt =====
-- sql_guard.py, `canonical_dialect` and its table of aliases.
use cognitive_rag_system.Prelude.{String, Option, none, some, List, [], ◌∷◌, if◌then◌else◌}
use cognitive_rag_system.Text.{Text, codes, lower, strip, text_eq}

pub data Dialect : Type 0 where
  postgresql mysql oracle mssql sqlite : Dialect

-- `_DIALECT_ALIASES`
unfoldable pub dialect_aliases : List (String × Dialect)
dialect_aliases =
    ("postgres", postgresql)
    ∷ ("postgresql", postgresql)
    ∷ ("postgres_db", postgresql)
    ∷ ("postgresql_db", postgresql)
    ∷ ("mysql", mysql)
    ∷ ("mysql_db", mysql)
    ∷ ("mariadb", mysql)
    ∷ ("oracle", oracle)
    ∷ ("oracle_db", oracle)
    ∷ ("mssql", mssql)
    ∷ ("mssql_db", mssql)
    ∷ ("sqlserver", mssql)
    ∷ ("sqlite", sqlite)
    ∷ []

unfoldable pub lookup_alias : Text → List (String × Dialect) → Option Dialect
unfolding text_eq
lookup_alias name [] = none
lookup_alias name ((alias, d) ∷ rest) =
    if text_eq name (codes alias) then some d else lookup_alias name rest

-- `none` stands for the ValueError of an unsupported dialect.
unfoldable pub canonical_dialect : Text → Option Dialect
unfolding lookup_alias dialect_aliases lower strip
canonical_dialect dialect = lookup_alias (strip (lower dialect)) dialect_aliases

unfoldable pub dialect_value : Dialect → Text
dialect_value postgresql = codes "postgresql"
dialect_value mysql = codes "mysql"
dialect_value oracle = codes "oracle"
dialect_value mssql = codes "mssql"
dialect_value sqlite = codes "sqlite"
