-- ===== src/Core.antt =====
-- src/saga_agents/core: environment variables in configuration values.
pub mod Env
