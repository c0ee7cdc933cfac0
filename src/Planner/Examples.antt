-- ===== src/Planner/Examples.antt =====
-- Questions, and where they go.
use cognitive_rag_system.Prelude.{true, false, not, ◌&&◌, ◌||◌, ◌≡◌, refl}
use cognitive_rag_system.Text.{
  is_word, is_ascii_word, Text, codes, lower, strip, is_space, lstrip_by, rstrip_by, contains,
  starts_with,
}
use cognitive_rag_system.Text.Regex.{found, search_from, match_at, star_from}
use cognitive_rag_system.Planner.Domain.{IntentCategory}
use cognitive_rag_system.Planner.Patterns.{
  matches_any, session_identity_patterns, system_meta_keywords, document_rag_keywords,
  structured_sql_keywords, conversational_patterns, general_knowledge_patterns, aggregate_words,
}
use cognitive_rag_system.Planner.Plan.{
  auto, signals_of, is_sql_intent, talk, retrieve, all_scopes, system_plan, document_plan,
  auto_plan, mode_plan, plan_for, analyze_and_plan,
}
use cognitive_rag_system.Planner.Routes.{
  IsCoherent, analyze_and_plan-IsCoherent, auto_plan-structured,
}

program : Unit {0}
unfolding lower strip is_space lstrip_by rstrip_by contains starts_with found search_from match_at
    star_from is_word is_ascii_word matches_any session_identity_patterns system_meta_keywords
    document_rag_keywords structured_sql_keywords conversational_patterns general_knowledge_patterns
    aggregate_words signals_of is_sql_intent talk retrieve all_scopes system_plan document_plan
    auto_plan mode_plan plan_for analyze_and_plan
program = tt

abbrev intent_of : Text → IntentCategory
intent_of question = (analyze_and_plan question false auto).intent_category

asks_who : intent_of (codes " Who am I? ") ≡ IntentCategory.session_identity
unfolding program
asks_who = refl

asks_count : intent_of (codes "How many invoices?") ≡ IntentCategory.structured_sql
unfolding program
asks_count = refl

asks_policy : intent_of (codes "Show the leave policy") ≡ IntentCategory.document_rag
unfolding program
asks_policy = refl

greets : intent_of (codes "Good morning") ≡ IntentCategory.conversational
unfolding program
greets = refl

asks_sources : intent_of (codes "list data  sources") ≡ IntentCategory.system_meta
unfolding program
asks_sources = refl

analyze_and_plan-IsCoherent_example :
    IsCoherent
      (codes "How many invoices?")
      (analyze_and_plan (codes "How many invoices?") false auto)
analyze_and_plan-IsCoherent_example =
    analyze_and_plan-IsCoherent (codes "How many invoices?") false auto

auto_plan-structured_example :
    (analyze_and_plan (codes "How many invoices?") true auto).is_structured_sql ≡ (
      not (signals_of (lower (strip (codes "How many invoices?")))).is_session_identity
      && not (signals_of (lower (strip (codes "How many invoices?")))).is_system_meta
      && (signals_of (lower (strip (codes "How many invoices?")))).has_sql_keyword
      && (not (signals_of (lower (strip (codes "How many invoices?")))).is_doc_intent
          || (signals_of (lower (strip (codes "How many invoices?")))).has_sql_aggregate))
auto_plan-structured_example = auto_plan-structured (codes "How many invoices?") true
