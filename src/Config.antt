-- ===== src/Config.antt =====
-- src/saga_agents/config: the shapes of the configuration, and how files become it.
pub mod Models
pub mod Loader
