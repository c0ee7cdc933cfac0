-- ===== src/Planner/Plan.antt =====
-- query_planner.py, `QueryPlanner.analyze_and_plan`.
use cognitive_rag_system.Prelude.{
  Bool, true, false, not, ◌&&◌, ◌||◌, String, List, [], ◌∷◌, any, if◌then◌else◌,
}
use cognitive_rag_system.Text.{Text, codes, strip, lower, contains}
use cognitive_rag_system.Planner.Domain.{QueryPlan, IntentCategory}
use cognitive_rag_system.Planner.Patterns.{
  matches_any, session_identity_patterns, system_meta_keywords, document_rag_keywords,
  structured_sql_keywords, conversational_patterns, general_knowledge_patterns, aggregate_words,
}

-- The values that `mode` is compared with; any other text is `auto`.
pub data Mode : Type 0 where
  general sql database meta rag auto : Mode

-- What the question was found to hold.
pub record Signals : Type 0 where
  pub is_session_identity : Bool
  pub is_system_meta : Bool
  pub is_doc_intent : Bool
  pub has_sql_aggregate : Bool
  pub has_sql_keyword : Bool
  pub is_conversational : Bool
  pub is_general_knowledge : Bool

unfoldable pub signals_of : Text → Signals
signals_of lower_query = record {
  is_session_identity = matches_any session_identity_patterns lower_query;
  is_system_meta = matches_any system_meta_keywords lower_query;
  is_doc_intent = matches_any document_rag_keywords lower_query;
  has_sql_aggregate = any (λ (k : String). contains lower_query (codes k)) aggregate_words;
  has_sql_keyword = matches_any structured_sql_keywords lower_query;
  is_conversational = matches_any conversational_patterns lower_query;
  is_general_knowledge = matches_any general_knowledge_patterns lower_query;
}

unfoldable pub is_sql_intent : Signals → Bool
is_sql_intent s = s.has_sql_keyword && (not s.is_doc_intent || s.has_sql_aggregate)

-- A plan that retrieves nothing.
unfoldable pub talk : Text → IntentCategory → QueryPlan
talk query intent = record {
  is_conversational_only = true;
  target_scopes = [];
  sub_queries = query ∷ [];
  intent_category = intent;
  is_structured_sql = false;
}

unfoldable pub all_scopes : List String
all_scopes = "personal" ∷ "department" ∷ "enterprise" ∷ []

unfoldable pub retrieve : Text → List String → IntentCategory → Bool → QueryPlan
retrieve query scopes intent structured = record {
  is_conversational_only = false;
  target_scopes = scopes;
  sub_queries = query ∷ [];
  intent_category = intent;
  is_structured_sql = structured;
}

unfoldable pub system_plan : Text → QueryPlan
system_plan query = retrieve query ("system" ∷ []) IntentCategory.system_meta false

unfoldable pub document_plan : Text → QueryPlan
document_plan query = retrieve query all_scopes IntentCategory.document_rag false

-- The automatic routing.
unfoldable pub auto_plan : Signals → Text → Bool → QueryPlan
auto_plan s query has_session_documents =
    if not (is_sql_intent s) && not s.is_doc_intent && s.is_conversational
    then talk query IntentCategory.conversational
    else if s.is_doc_intent && not s.has_sql_aggregate
    then document_plan query
    else if is_sql_intent s
    then retrieve query all_scopes IntentCategory.structured_sql true
    else if s.is_doc_intent
    then document_plan query
    else if has_session_documents
    then document_plan query
    else if s.is_general_knowledge
    then talk query IntentCategory.general_knowledge
    else document_plan query

-- The explicit modes, before it.
unfoldable pub mode_plan : Signals → Text → Bool → Mode → QueryPlan
mode_plan s query has_session_documents general = talk query IntentCategory.conversational
mode_plan s query has_session_documents sql =
    retrieve query ("enterprise" ∷ []) IntentCategory.structured_sql true
mode_plan s query has_session_documents database =
    retrieve query ("enterprise" ∷ []) IntentCategory.structured_sql true
mode_plan s query has_session_documents meta = system_plan query
mode_plan s query has_session_documents rag =
    if is_sql_intent s
    then retrieve query all_scopes IntentCategory.structured_sql true
    else document_plan query
mode_plan s query has_session_documents auto = auto_plan s query has_session_documents

unfoldable pub plan_for : Signals → Text → Bool → Mode → QueryPlan
plan_for s query has_session_documents mode =
    if s.is_session_identity
    then talk query IntentCategory.session_identity
    else if s.is_system_meta
    then system_plan query
    else mode_plan s query has_session_documents mode

unfoldable pub analyze_and_plan : Text → Bool → Mode → QueryPlan
analyze_and_plan query has_session_documents mode =
    plan_for (signals_of (lower (strip query))) (strip query) has_session_documents mode
