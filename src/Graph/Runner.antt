-- ===== src/Graph/Runner.antt =====
-- langgraph/workflow.py: the routing functions of the graph and `EnterpriseRAGGraphRunner`, which
-- runs one turn.
use mathlib.Core.Option
use cognitive_rag_system.Prelude.{
  ℕ, zero, suc, Bool, true, false, ◌&&◌, Option, none, some, List, get_or, ltb, leb, if◌then◌else◌,
}
use cognitive_rag_system.Prelude.Dict.{or_else}
use cognitive_rag_system.Text.{Text, is_empty}
use cognitive_rag_system.Planner.{QueryPlan, IntentCategory}
use cognitive_rag_system.Planner.Plan.{analyze_and_plan, auto}
use cognitive_rag_system.Graph.State.{
  RoutingDecision, Memory, sql, document, identity, conversational, system_meta,
  merge_working_memory, replace_list,
}
use cognitive_rag_system.Graph.Turn.{Report, GraphState, Update, no_update}
use cognitive_rag_system.Graph.Validator.{node_validator, node_fallback_refusal, node_synthesizer}
use cognitive_rag_system.Graph.Egress.{
  node_summarize_history, node_state_harvester, node_cleanup_ephemeral_state,
}

-- The nodes of the graph, as far as the routing names them.
pub data Node : Type 0 where
  sql_generator vector_retriever identity_resolver : Node
  synthesizer state_harvester fallback_refusal : Node

-- `route_by_decision`
unfoldable pub route_by_decision : Option RoutingDecision → Node
route_by_decision (some sql) = Node.sql_generator
route_by_decision (some document) = Node.vector_retriever
route_by_decision (some identity) = Node.identity_resolver
route_by_decision (some conversational) = Node.identity_resolver
route_by_decision _ = Node.vector_retriever

-- `report.get("is_grounded", True)`, also for a state with no report
abbrev pub grounded : Option Report → Bool
grounded none = true
grounded (some r) = r.is_grounded

-- The decision of `node_planner`.
unfoldable pub decide_route : QueryPlan → RoutingDecision
decide_route plan = elim plan.intent_category [
  | IntentCategory.session_identity ↦ identity
  | IntentCategory.system_meta ↦ system_meta
  | _ ↦
      if plan.is_conversational_only
      then conversational
      else if plan.is_structured_sql
      then sql
      else document
]

abbrev merge_update : Memory → Option Memory → Memory
merge_update cur none = cur
merge_update cur (some new) = merge_working_memory cur new

module _ {Item : Type 0} where
  -- `route_validation`
  unfoldable pub route_validation : GraphState Item → Node
  route_validation s =
      if grounded s.grounding_report
      then Node.state_harvester
      else if ltb s.iteration_count 3
      then Node.synthesizer
      else Node.fallback_refusal

  -- `_apply_update`: the memory is merged, the context lists and the messages are replaced, and
  -- every other key is overwritten.
  unfoldable pub apply_update : GraphState Item → Update Item → GraphState Item
  apply_update s u = record s {
    summary = get_or s.summary u.summary;
    working_memory = merge_update s.working_memory u.working_memory;
    messages = replace_list s.messages u.messages;
    condensed_query = get_or s.condensed_query u.condensed_query;
    retrieved_chunks = replace_list s.retrieved_chunks u.retrieved_chunks;
    sql_result_rows = replace_list s.sql_result_rows u.sql_result_rows;
    retrieved_context = replace_list s.retrieved_context u.retrieved_context;
    routing_decision = or_else u.routing_decision s.routing_decision;
    generated_sql = get_or s.generated_sql u.generated_sql;
    sql_approval_status = or_else u.sql_approval_status s.sql_approval_status;
    synthesized_response = get_or s.synthesized_response u.synthesized_response;
    grounding_report = or_else u.grounding_report s.grounding_report;
    iteration_count = get_or s.iteration_count u.iteration_count;
    correction_instruction = get_or s.correction_instruction u.correction_instruction;
  }

  unfoldable pub egress : GraphState Item → GraphState Item
  egress s =
      let harvested = apply_update s (node_state_harvester s) in
      apply_update harvested (node_cleanup_ephemeral_state harvested)

-- The nodes that call a language model, a database or a vector store, and `str` of a context.
pub record Services (Item : Type 0) : Type 0 where
  pub render : List Item → Text
  pub generate : GraphState Item → Text
  pub summarize : GraphState Item → Option Text
  pub node_resolve_context : GraphState Item → Update Item
  pub node_condense_query : GraphState Item → Update Item
  pub node_sql_generator : GraphState Item → Update Item
  pub node_sql_executor : GraphState Item → Update Item
  pub node_vector_retriever : GraphState Item → Update Item
  pub node_identity_resolver : GraphState Item → Update Item

module _ {Item : Type 0} (services : Services Item) where
  -- `condensed_query or raw_query`
  unfoldable pub node_planner : GraphState Item → Update Item
  node_planner s =
      let query = if is_empty s.condensed_query then s.raw_query else s.condensed_query in
      record no_update {
        routing_decision = some (decide_route (analyze_and_plan query false auto));
      }

  -- One round of synthesis and validation.
  unfoldable pub attempt : GraphState Item → GraphState Item
  attempt s =
      let answered = apply_update s (node_synthesizer services.generate s) in
      apply_update answered (node_validator services.render answered)

  -- `while True: …`; `none` means that the fuel ran out.
  unfoldable pub correction_loop : ℕ → GraphState Item → Option (GraphState Item)
  correction_loop zero s = none
  correction_loop (suc fuel) s =
      let tried = attempt s in
      let again = correction_loop fuel tried in
      if grounded tried.grounding_report
      then some tried
      else if leb 3 tried.iteration_count
      then some (apply_update tried (node_fallback_refusal tried))
      else again

  -- The steps before the branching.
  unfoldable pub ingress : GraphState Item → GraphState Item
  ingress s0 =
      let s1 = apply_update s0 (services.node_resolve_context s0) in
      let s2 = apply_update s1 (node_summarize_history services.summarize s1) in
      let s3 = apply_update s2 (services.node_condense_query s2) in
      apply_update s3 (node_planner s3)

  unfoldable pub answer_and_close : ℕ → GraphState Item → Option (GraphState Item)
  answer_and_close fuel s = Option.map egress (correction_loop fuel s)

  -- The branch of the routing decision, and the rest of the turn. `interrupt` is the flag of the
  -- configuration that asks for a review of the SQL before it is executed.
  unfoldable pub branch :
      (enable_hitl_sql interrupt : Bool) (fuel : ℕ)
      → GraphState Item
      → Option RoutingDecision
      → Option (GraphState Item)
  branch enable interrupt fuel s (some sql) =
      let generated = apply_update s (services.node_sql_generator s) in
      if enable && interrupt
      then some (record generated { sql_approval_status = some "interrupted_for_review" })
      else answer_and_close fuel (apply_update generated (services.node_sql_executor generated))
  branch enable interrupt fuel s (some document) =
      answer_and_close fuel (apply_update s (services.node_vector_retriever s))
  branch enable interrupt fuel s (some identity) =
      answer_and_close fuel (apply_update s (services.node_identity_resolver s))
  branch enable interrupt fuel s (some conversational) =
      answer_and_close fuel (apply_update s (services.node_identity_resolver s))
  branch enable interrupt fuel s _ = answer_and_close fuel s

  unfoldable pub invoke :
      (enable_hitl_sql interrupt : Bool) (fuel : ℕ) → GraphState Item → Option (GraphState Item)
  invoke enable interrupt fuel s0 =
      let s = ingress s0 in branch enable interrupt fuel s s.routing_decision
