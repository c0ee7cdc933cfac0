-- ===== src/Guard/Urls.antt =====
-- sql_guard.py, `safe_build_db_url` and `mask_db_url`.
use cognitive_rag_system.Prelude.{
  ℕ, ◌+◌, ◌/◌, ◌%◌, Bool, false, not, ◌&&◌, ◌||◌, String, Option, none, some, List, [], ◌∷◌, ◌++◌,
  zero, suc, any, map, drop, length, ltb, nat_eq, get_or, if◌then◌else◌,
}
use cognitive_rag_system.Text.{
  Text, codes, is_empty, lower, strip, starts_with, contains, text_in, split_on,
}
use cognitive_rag_system.Guard.Dialect.{
  Dialect, postgresql, mysql, oracle, mssql, sqlite, canonical_dialect,
}

-- `str(n)`, for numbers of up to as many digits as there is fuel
unfoldable pub decimal_from : (fuel : ℕ) → ℕ → Text
decimal_from zero n = []
decimal_from (suc fuel) n =
    let rest = decimal_from fuel (n / 10) in
    if ltb n 10 then (b'0' + n) ∷ [] else rest ++ (b'0' + n % 10) ∷ []

-- A port has at most five digits.
unfoldable pub decimal : ℕ → Text
decimal n = decimal_from 5 n

-- The fields of a connection's configuration, as texts, where they are given.
pub record DbConfig : Type 0 where
  pub db_url : Option Text
  pub username : Option Text
  pub password : Option Text
  pub host : Option Text
  pub port : Option ℕ
  pub database : Option Text
  pub service_name : Option Text

-- `s.replace(prefix, new, 1)` for a text that starts with the prefix; others stay.
unfoldable pub swap_prefix : (prefix new : String) → Text → Text
swap_prefix prefix new s =
    if starts_with s (codes prefix) then codes new ++ drop (length (codes prefix)) s else s

unfoldable pub with_intent : Text → Text
with_intent url =
    if contains (lower url) (codes "applicationintent=")
    then url
    else url
      ++ (codes (if any (λ c. nat_eq c b'?') url then "&" else "?")
          ++ codes "ApplicationIntent=ReadOnly")

unfoldable pub normalise_url : Dialect → Text → Text
normalise_url postgresql url =
    if starts_with url (codes "postgres://")
    then swap_prefix "postgres://" "postgresql+psycopg2://" url
    else swap_prefix "postgresql://" "postgresql+psycopg2://" url
normalise_url mysql url = swap_prefix "mysql://" "mysql+pymysql://" url
normalise_url oracle url = swap_prefix "oracle://" "oracle+oracledb://" url
normalise_url mssql url = with_intent url
normalise_url sqlite url = url

abbrev given : Option Text → Bool
given none = false
given (some s) = not (is_empty s)

-- `quote_plus` is a parameter, and `pyodbc` says whether that driver can be imported.
module _ (quote_plus : Text → Text) (pyodbc : Bool) where
  unfoldable pub auth_part : DbConfig → Text
  auth_part c =
      let user = quote_plus (get_or [] c.username) in
      let pwd = quote_plus (get_or [] c.password) in
      if is_empty user && is_empty pwd then [] else user ++ b':' ∷ pwd ++ codes "@"

  -- `{auth_part}{host}:{port}`
  unfoldable pub authority : (default_port : ℕ) → DbConfig → Text
  authority default_port c =
      auth_part c
      ++ (get_or (codes "localhost") c.host ++ b':' ∷ decimal (get_or default_port c.port))

  unfoldable pub built_url : Dialect → DbConfig → Option Text
  built_url postgresql c = some (
      codes "postgresql+psycopg2://"
      ++ (authority 5432 c ++ b'/' ∷ get_or (codes "postgres") c.database))
  built_url mysql c =
      some
        (codes "mysql+pymysql://" ++ (authority 3306 c ++ b'/' ∷ get_or (codes "mysql") c.database))
  built_url oracle c = some (
      codes "oracle+oracledb://"
      ++ (authority 1521 c
          ++ (codes "/?service_name=" ++ get_or (codes "ORCLPDB1") c.service_name)))
  built_url mssql c = some (
      if pyodbc
      then codes "mssql+pyodbc://"
        ++ (authority 1433 c
            ++ b'/' ∷ get_or (codes "master") c.database
            ++ (codes "?driver="
                ++ (quote_plus (codes "ODBC Driver 18 for SQL Server")
                    ++ codes "&TrustServerCertificate=yes&ApplicationIntent=ReadOnly")))
      else codes "mssql+pymssql://"
        ++ (authority 1433 c ++ b'/' ∷ get_or (codes "master") c.database))
  built_url sqlite c = none

  unfoldable pub url_for : Dialect → DbConfig → Option Text
  url_for d c =
      if given c.db_url then some (normalise_url d (strip (get_or [] c.db_url))) else built_url d c

  -- `safe_build_db_url`: `none` stands for the ValueError.
  unfoldable pub safe_build_db_url : Text → DbConfig → Option Text
  safe_build_db_url dialect c = elim (canonical_dialect dialect) [
    | none ↦ none
    | some d ↦ url_for d c
  ]

-- What `urlsplit` gives, with the query as `parse_qsl` does.
pub record SplitUrl : Type 0 where
  pub scheme : Text
  pub username : Option Text
  pub password : Option Text
  pub hostname : Option Text
  pub port : Option ℕ
  pub path : Text
  pub query : List (Text × Text)

-- `_SENSITIVE_QUERY_KEYS`
unfoldable pub sensitive_query_keys : List Text
sensitive_query_keys = map codes (
    "access_token" ∷ "apikey" ∷ "api_key" ∷ "auth" ∷ "bearer" ∷ "client_secret" ∷ "key" ∷ "pass"
    ∷ "password" ∷ "pwd" ∷ "secret" ∷ "token" ∷ [])

-- `key.lower().replace("-", "_")`
unfoldable pub lowered_key : Text → Text
lowered_key key = map (λ c. if nat_eq c b'-' then b'_' else c) (lower key)

unfoldable pub is_sensitive : Text → Bool
is_sensitive key =
    text_in (lowered_key key) sensitive_query_keys
    || any (λ m. contains (lowered_key key) (codes m))
        ("password" ∷ "secret" ∷ "token" ∷ "pwd" ∷ [])

unfoldable pub mask_query : List (Text × Text) → List (Text × Text)
mask_query [] = []
mask_query (e ∷ query) = (e.0, (if is_sensitive e.0 then codes "***" else e.1)) ∷ mask_query query

-- The host in brackets if it holds a colon and has none.
unfoldable pub bracketed : Text → Text
bracketed hostname =
    if any (λ c. nat_eq c b':') hostname && not (starts_with hostname (codes "["))
    then b'[' ∷ hostname ++ codes "]"
    else hostname

abbrev port_part : Option ℕ → Text
port_part none = []
port_part (some n) = b':' ∷ decimal n

abbrev first_piece : List Text → Text
first_piece [] = []
first_piece (s ∷ ss) = s

-- `urlsplit` with the query (`none` where it or `port` raises), `quote` of `unquote`, and
-- `urlunsplit` with `urlencode`
module _ (urlsplit : Text → Option SplitUrl) (requote : Text → Text)
    (urlunsplit : (scheme netloc path : Text) → List (Text × Text) → Text) where
  abbrev user_part : Option Text → Text
  user_part none = []
  user_part (some username) = requote username ++ codes ":***@"

  unfoldable pub masked_netloc : SplitUrl → Text
  masked_netloc p = user_part p.username ++ (bracketed (get_or [] p.hostname) ++ port_part p.port)

  unfoldable pub mask_parsed : (url : Text) → Option SplitUrl → Text
  mask_parsed url none =
      (if any (λ c. nat_eq c b':') url then first_piece (split_on b':' url) else codes "db")
      ++ codes "://***"
  mask_parsed url (some p) = urlunsplit p.scheme (masked_netloc p) p.path (mask_query p.query)

  unfoldable pub mask_db_url : Text → Text
  mask_db_url url = if is_empty url then [] else mask_parsed url (urlsplit url)
