-- ===== src/Domain.antt =====
-- src/aegis_agent_platform/domain: events, distributed work and model contracts.
pub mod Events
pub mod Work
pub mod Model
