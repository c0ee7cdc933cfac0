-- ===== src/Governance.antt =====
-- modules/governance and modules/tasks: the documents table and the jobs that keep it in step
-- with the external sources.
pub mod Documents
pub mod Jobs
pub mod Cdc
pub mod Workers
pub mod Tables
pub mod Sync
pub mod Runs
pub mod Idle
pub mod SecondRun
pub mod Converge
pub mod Access
pub mod Indexing
pub mod Uploads
mod Examples
