-- ===== src/Planner/Domain.antt =====
-- modules/rag_core/domain/types.py, the plan of a question.
use cognitive_rag_system.Prelude.{Bool, List, String}
use cognitive_rag_system.Text.{Text}

-- The values that `intent_category` takes.
pub data IntentCategory : Type 0 where
  session_identity system_meta conversational structured_sql document_rag general_knowledge :
      IntentCategory

-- `QueryPlan`
pub record QueryPlan : Type 0 where
  pub is_conversational_only : Bool
  pub target_scopes : List String
  pub sub_queries : List Text
  pub intent_category : IntentCategory
  pub is_structured_sql : Bool
