-- ===== src/Graph/Egress.antt =====
-- langgraph/nodes.py: summarisation of the history, the harvester, and the cleanup of a turn.
use mathlib.Core.Option
use cognitive_rag_system.Prelude.{
  ◌+◌, ◌-◌, Bool, true, false, ◌&&◌, ◌||◌, Option, none, some, List, [], ◌∷◌, ◌++◌, length, get_or,
  leb, drop, truthy, if◌then◌else◌,
}
use cognitive_rag_system.Text.{Text, strip, text_eq, is_empty}
use cognitive_rag_system.Graph.State.{Memory, no_memory}
use cognitive_rag_system.Graph.Turn.{Message, GraphState, Update, no_update}

-- `messages and messages[-1]` is the user's message `query`.
unfoldable pub ends_with : Text → List Message → Bool
ends_with query [] = false
ends_with query (m ∷ []) = m.from_user && text_eq m.content query
ends_with query (m ∷ n ∷ ms) = ends_with query (n ∷ ms)

abbrev pub message : Bool → Text → Message
message from_user content = record { from_user = from_user; content = content }

-- `raw_query`, unless the history ends with it.
unfoldable pub with_question : Text → List Message → List Message
with_question query ms =
    if is_empty query || ends_with query ms then ms else ms ++ (message true query ∷ [])

unfoldable pub turn_messages : Text → Text → List Message → List Message
turn_messages query answer ms =
    let asked = with_question query ms in
    if is_empty answer then asked else asked ++ (message false answer ∷ [])

unfoldable pub pruned_memory : Memory → Memory
pruned_memory m = record no_memory {
  pruned = true;
  active_entities = some (get_or [] m.active_entities);
  active_external_entities = some (get_or [] m.active_external_entities);
  active_metrics = some (get_or [] m.active_metrics);
  collection_ids = some (get_or [] m.collection_ids);
  resolution_scope = if truthy m.resolution_scope then m.resolution_scope else some "SINGLE_ENTITY";
  turn_count = some (get_or 0 m.turn_count);
  primary_anchor_id = m.primary_anchor_id;
  last_strategy = m.last_strategy;
  last_target_database = m.last_target_database;
  active_documents = m.active_documents;
  active_cloud_sources = m.active_cloud_sources;
}

module _ {Item : Type 0} where
  -- `summarize` is the model's summary, `none` where the call raises.
  unfoldable pub node_summarize_history :
      (GraphState Item → Option Text) → GraphState Item → Update Item
  node_summarize_history summarize s =
      if leb (length s.messages) 6 then no_update else record no_update {
        summary = some (get_or s.summary (Option.map strip (summarize s)));
        messages = some (drop (length s.messages - 2) s.messages);
      }

  -- The audit record that the node writes besides is not part of the state.
  unfoldable pub node_state_harvester : GraphState Item → Update Item
  node_state_harvester s = record no_update {
    working_memory =
        some (record s.working_memory {
          turn_count = some (get_or 0 s.working_memory.turn_count + 1);
        });
    messages = some (turn_messages s.raw_query s.synthesized_response s.messages);
  }

  unfoldable pub node_cleanup_ephemeral_state : GraphState Item → Update Item
  node_cleanup_ephemeral_state s = record no_update {
    retrieved_chunks = some [];
    sql_result_rows = some [];
    retrieved_context = some [];
    generated_sql = some none;
    correction_instruction = some none;
    working_memory = some (pruned_memory s.working_memory);
  }
