-- ===== src/Observatory.antt =====
-- modules/observatory/buffer.py: the metrics of the process and what it keeps of them in Redis.
pub mod Leases
pub mod Visible
pub mod Refines
pub mod Contract
pub mod Routes
pub mod Requests
pub mod Shared
pub mod Histogram
pub mod Hours
pub mod ActiveSessions
pub mod Alerts
mod Examples
