-- ===== src/Runtime.antt =====
-- src/aegis_agent_platform/runtime: retry delays and the order of work.
pub mod Backoff
pub mod Operations
pub mod Scheduler
pub mod Work
