-- ===== src/Graph/Examples.antt =====
-- The graph at concrete states.
use mathlib.Core.Option
use cognitive_rag_system.Prelude.{
  ◌++◌, ◌≤◌, true, false, not, ◌&&◌, ◌||◌, ◌≡◌, refl, String, none, some, List, [], ◌∷◌, all,
  length, member, get_or,
}
use cognitive_rag_system.Prelude.Dict.{lookup, last_value, or_else, update, insert}
use cognitive_rag_system.Text.Unicode.{in_ranges, wide_digits, wide_words}
use cognitive_rag_system.Text.{
  is_digit, is_word, is_ascii_word, Text, codes, contains, lower, strip, text_eq, rstrip_by, join,
  is_space, lstrip_by, starts_with,
}
use cognitive_rag_system.Text.Regex.{found, search_from, match_at, star_from}
use cognitive_rag_system.Planner.Patterns.{
  matches_any, session_identity_patterns, system_meta_keywords, document_rag_keywords,
  structured_sql_keywords, conversational_patterns, general_knowledge_patterns, aggregate_words,
}
use cognitive_rag_system.Planner.Plan.{
  signals_of, is_sql_intent, talk, retrieve, all_scopes, system_plan, document_plan, auto_plan,
  mode_plan, plan_for, analyze_and_plan,
}
use cognitive_rag_system.Graph.State.{
  Memory, no_memory, is_blank, append_name, append_missing, merged_keys, merge_keys,
  merge_working_memory, replace_list,
}
use cognitive_rag_system.Graph.Turn.{GraphState, no_update}
use cognitive_rag_system.Graph.Validator.{
  add_run, numbers_from, numbers, number_claim, check_number, check_numbers, is_unsupported,
  first_report, correction_of, refusal, retrieved, grounding_of, node_validator,
  node_fallback_refusal, node_synthesizer,
}
use cognitive_rag_system.Graph.Egress.{
  ends_with, with_question, turn_messages, pruned_memory, node_summarize_history,
  node_state_harvester, node_cleanup_ephemeral_state,
}
use cognitive_rag_system.Graph.Runner.{
  Services, route_validation, apply_update, decide_route, node_planner, attempt, correction_loop,
  ingress, egress, answer_and_close, branch, invoke,
}
use cognitive_rag_system.Graph.Blackboard.{
  named, IsDistinct, IsAdditive, merge-entities, merge-documents,
}
use cognitive_rag_system.Graph.Correction.{IsFinished, is_sql, invoke_total}
use cognitive_rag_system.Graph.Grounding.{IsRated, grounding_of_lem}
use cognitive_rag_system.Graph.History.{history_bounded, turn_count_stays}
use cognitive_rag_system.Graph.Routing.{follow, correction_loop-follow}

program : Unit {0}
unfolding lookup update insert contains lower strip text_eq rstrip_by join is_word is_ascii_word
    is_blank append_name append_missing merged_keys merge_keys merge_working_memory replace_list
    is_digit add_run numbers_from numbers number_claim check_number check_numbers is_unsupported
    first_report correction_of refusal retrieved grounding_of node_validator node_fallback_refusal
    node_synthesizer ends_with with_question turn_messages pruned_memory node_summarize_history
    node_state_harvester node_cleanup_ephemeral_state route_validation apply_update decide_route
    node_planner attempt correction_loop ingress egress answer_and_close branch invoke matches_any
    session_identity_patterns system_meta_keywords document_rag_keywords structured_sql_keywords
    conversational_patterns general_knowledge_patterns aggregate_words signals_of is_sql_intent talk
    retrieve all_scopes system_plan document_plan auto_plan mode_plan plan_for analyze_and_plan
    found search_from match_at star_from is_space lstrip_by starts_with
program = tt

-- A turn about a balance, with one row of context.
abbrev known : Memory
known = record no_memory {
  active_entities = some (("customer_id", "17") ∷ ("bvn", "22") ∷ []);
  active_documents = some ("policy.pdf" ∷ []);
  turn_count = some 4;
}

abbrev discovered : Memory
discovered = record no_memory {
  active_entities = some (("customer_id", "18") ∷ []);
  active_documents = some ("policy.pdf" ∷ "rates.xlsx" ∷ "" ∷ []);
}

abbrev start : GraphState Text
start = record {
  summary = [];
  working_memory = known;
  messages = [];
  raw_query = codes "balance?";
  condensed_query = [];
  retrieved_chunks = codes "balance 88450" ∷ [];
  sql_result_rows = [];
  retrieved_context = [];
  routing_decision = none;
  generated_sql = none;
  sql_approval_status = none;
  synthesized_response = codes "It is 88450";
  grounding_report = none;
  iteration_count = 0;
  correction_instruction = none;
}

abbrev render_items : List Text → Text
render_items [] = []
render_items (x ∷ xs) = x

-- A model that always makes up a number.
abbrev services : Services Text
services = record {
  render = render_items;
  generate = λ s. codes " It is 99999 ";
  summarize = λ s. none;
  node_resolve_context = λ s. record no_update { iteration_count = some 0 };
  node_condense_query = λ s. no_update;
  node_sql_generator = λ s. record no_update { generated_sql = some (some (codes "SELECT 1")) };
  node_sql_executor = λ s. no_update;
  node_vector_retriever = λ s. no_update;
  node_identity_resolver = λ s. no_update;
}

-- A letter of another script continues a word, and its digits are digits.
finds_wide_numbers :
    numbers (codes "2024" ++ (24180 ∷ 32 ∷ 1633 ∷ 1634 ∷ 1635 ∷ 1636 ∷ []))
    ≡ (1633 ∷ 1634 ∷ 1635 ∷ 1636 ∷ []) ∷ []
unfolding program in_ranges wide_digits wide_words
finds_wide_numbers = refl

finds_numbers : numbers (codes "2024 was 31, x1234 is 88450.") ≡ codes "2024" ∷ codes "88450" ∷ []
unfolding program
finds_numbers = refl

-- After three rounds the made-up number is refused.
refuses :
    Option.map
      (λ (s : GraphState Text). s.synthesized_response)
      (invoke services true false 3 start)
    ≡ some refusal
unfolding program
refuses = refl

additive : IsAdditive known discovered
unfolding is_blank
additive = record { current = refl; updated = refl; kept = refl }

merge-entities_example :
    lookup "customer_id" (get_or [] (merge_working_memory known discovered).active_entities)
    ≡ or_else
        (last_value "customer_id" (get_or [] discovered.active_entities))
        (lookup "customer_id" (get_or [] known.active_entities))
merge-entities_example = merge-entities known discovered "customer_id" additive

merge-documents_example :
    IsDistinct (get_or [] (merge_working_memory known discovered).active_documents)
    × ((x : String)
        → member x (get_or [] (merge_working_memory known discovered).active_documents) ≡ (
            member x (get_or [] known.active_documents)
            || (named x && member x (get_or [] discovered.active_documents))))
merge-documents_example = merge-documents known discovered additive (refl, tt)

grounding_of_lem_example :
    ((grounding_of render_items start).is_grounded ≡ (
      not (is_unsupported (retrieved start) start.synthesized_response)
      && all (contains (render_items (retrieved start))) (numbers start.synthesized_response)))
    × IsRated (grounding_of render_items start)
grounding_of_lem_example = grounding_of_lem render_items start

invoke_total_example :
    (s' : GraphState Text) × (invoke services true true 3 start ≡ some s')
    × IsFinished services (true && true && is_sql (ingress services start).routing_decision) s'
invoke_total_example = invoke_total services true true start

history_bounded_example :
    length (egress (apply_update start (node_summarize_history services.summarize start))).messages
    ≤ 8
history_bounded_example = history_bounded services.summarize start

turn_count_stays_example :
    (s : GraphState Text) × (answer_and_close services 3 start ≡ some s)
    × (s.working_memory.turn_count ≡ some 4)
turn_count_stays_example = turn_count_stays services start (unfold is_blank in refl) refl

correction_loop-follow_example :
    correction_loop services 3 start
    ≡ follow services 2 (attempt services start) (route_validation (attempt services start))
correction_loop-follow_example = correction_loop-follow services 2 start
