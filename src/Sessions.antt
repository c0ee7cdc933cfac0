-- ===== src/Sessions.antt =====
-- modules/rag_core/context/session_context_manager.py and models.py: the working memory of a
-- conversation and the three places that keep it.
pub mod Memory
pub mod Store
pub mod Events
pub mod Kept
pub mod Steps
pub mod Durable
pub mod Summary
mod Examples
