-- ===== src/Observatory/Routes.antt =====
-- core/telemetry.py: the bounded routes under which requests are counted.
use cognitive_rag_system.Prelude.{String, Option, none, some, List, [], ◌∷◌, if◌then◌else◌}
use cognitive_rag_system.Text.{Text, codes, lower, strip, text_eq}

pub data BackendRoute : Type 0 where
  rag sql general attachments denied classification_failure unmapped scanner : BackendRoute

abbrev pub route_value : BackendRoute → String
route_value rag = "rag"
route_value sql = "sql"
route_value general = "general"
route_value attachments = "attachments"
route_value denied = "denied"
route_value classification_failure = "classification_failure"
route_value unmapped = "unmapped"
route_value scanner = "scanner"

abbrev pub routes : List BackendRoute
routes =
    rag ∷ sql ∷ general ∷ attachments ∷ denied ∷ classification_failure ∷ unmapped ∷ scanner ∷ []

unfoldable pub aliases : List (String × BackendRoute)
aliases =
    ("rag_retrieval", rag)
    ∷ ("retrieval", rag)
    ∷ ("vector", rag)
    ∷ ("doc", rag)
    ∷ ("database", sql)
    ∷ ("external_db", sql)
    ∷ ("structured_sql", sql)
    ∷ ("personal_attachment", attachments)
    ∷ ("attachment", attachments)
    ∷ ("files", attachments)
    ∷ ("forbidden", denied)
    ∷ ("unauthorized", denied)
    ∷ ("access_denied", denied)
    ∷ ("archived_session", denied)
    ∷ ("error", classification_failure)
    ∷ ("router_error", classification_failure)
    ∷ ("intent_error", classification_failure)
    ∷ ("personal", general)
    ∷ ("direct", general)
    ∷ ("greeting", general)
    ∷ ("conversational", general)
    ∷ []

-- `_VALID_ROUTE_VALUES`, with `BackendRoute(…)`
unfoldable pub route_named : Text → List BackendRoute → Option BackendRoute
route_named s [] = none
route_named s (r ∷ rs) = if text_eq s (codes (route_value r)) then some r else route_named s rs

unfoldable pub alias_of : Text → List (String × BackendRoute) → BackendRoute
alias_of s [] = unmapped
alias_of s (a ∷ more) = if text_eq s (codes a.0) then a.1 else alias_of s more

abbrev or_alias : Text → Option BackendRoute → BackendRoute
or_alias s none = alias_of s aliases
or_alias s (some r) = r

-- `normalize_backend_route` of a text; of a route it is the route.
unfoldable pub normalize_backend_route : Text → BackendRoute
normalize_backend_route value =
    let cleaned = lower (strip value) in or_alias cleaned (route_named cleaned routes)
