-- ===== src/Planner.antt =====
-- modules/rag_core/orchestrator/query_planner.py: the routing of a question.
mod Domain
pub mod Patterns
pub mod Plan
pub mod Routes
mod Examples
pub use Domain.{IntentCategory, QueryPlan}
