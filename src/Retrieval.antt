-- ===== src/Retrieval.antt =====
-- modules/rag_core/retrieval: the search filter and what it lets through.
pub mod Qdrant
pub mod SecurityFilter
pub mod Visibility
mod Examples
