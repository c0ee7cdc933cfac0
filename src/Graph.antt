-- ===== src/Graph.antt =====
-- modules/rag_core/orchestrator/langgraph: the conversation graph.
pub mod State
pub mod Blackboard
pub mod Turn
pub mod Validator
pub mod Egress
pub mod Runner
pub mod Correction
pub mod Grounding
pub mod History
pub mod Routing
mod Examples
