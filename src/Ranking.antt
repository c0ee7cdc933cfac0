-- ===== src/Ranking.antt =====
-- modules/rag_core/retrieval/reranker.py and modules/rag_core/guardrails/grounding_validator.py:
-- the order and the merging of what a search found.
pub mod Scores
pub mod Reranker
pub mod Sources
pub mod Order
pub mod Merging
mod Examples
