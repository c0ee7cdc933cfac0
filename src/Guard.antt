-- ===== src/Guard.antt =====
-- modules/connectors/security/sql_guard.py: the guard in front of external databases.
pub mod Dialect
pub mod Query
pub mod Calls
pub mod Rejects
pub mod Shapes
pub mod Escapes
pub mod Keywords
pub mod Target
pub mod Network
pub mod Execute
pub mod Streaming
pub mod Urls
mod Examples
