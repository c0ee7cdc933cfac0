-- ===== src/Graph/Turn.antt =====
-- langgraph/state.py, `GraphState`, and the dicts of new values that the nodes return.
use cognitive_rag_system.Prelude.{ℕ, Bool, String, Option, none, List}
use cognitive_rag_system.Text.{Text}
use cognitive_rag_system.Graph.State.{RoutingDecision, Memory}

-- `{"role": …, "content": …}`
pub record Message : Type 0 where
  pub from_user : Bool
  pub content : Text

-- `grounding_report`; the confidence is in hundredths.
pub record Report : Type 0 where
  pub is_grounded : Bool
  pub confidence : ℕ
  pub unsupported_claims : List Text

-- `GraphState`. An item of context is of any type.
pub record GraphState (Item : Type 0) : Type 0 where
  pub summary : Text
  pub working_memory : Memory
  pub messages : List Message
  pub raw_query : Text
  pub condensed_query : Text
  pub retrieved_chunks : List Item
  pub sql_result_rows : List Item
  pub retrieved_context : List Item
  pub routing_decision : Option RoutingDecision
  pub generated_sql : Option Text
  pub sql_approval_status : Option String
  pub synthesized_response : Text
  pub grounding_report : Option Report
  pub iteration_count : ℕ
  pub correction_instruction : Option Text

-- A node's dict of new values; `none` is a key that it does not return.
pub record Update (Item : Type 0) : Type 0 where
  pub summary : Option Text
  pub working_memory : Option Memory
  pub messages : Option (List Message)
  pub condensed_query : Option Text
  pub retrieved_chunks : Option (List Item)
  pub sql_result_rows : Option (List Item)
  pub retrieved_context : Option (List Item)
  pub routing_decision : Option RoutingDecision
  pub generated_sql : Option (Option Text)
  pub sql_approval_status : Option String
  pub synthesized_response : Option Text
  pub grounding_report : Option Report
  pub iteration_count : Option ℕ
  pub correction_instruction : Option (Option Text)

abbrev pub no_update : {Item : Type 0} → Update Item
no_update = record {
  summary = none;
  working_memory = none;
  messages = none;
  condensed_query = none;
  retrieved_chunks = none;
  sql_result_rows = none;
  retrieved_context = none;
  routing_decision = none;
  generated_sql = none;
  sql_approval_status = none;
  synthesized_response = none;
  grounding_report = none;
  iteration_count = none;
  correction_instruction = none;
}
