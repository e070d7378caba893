-- ===== src/Runtime.antt =====
-- src/saga_agents/runtime: what one run of an agent is made of.
pub mod Report
pub mod Guidance
pub mod Toolset
pub mod Session
pub mod Runner
mod Tests
