-- ===== src/Gateway.antt =====
-- src/aegis_agent_platform/gateway: routing, the durable ledger, and runtime controls.
pub mod Catalog
pub mod Repository
pub mod Resilience
