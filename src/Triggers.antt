-- ===== src/Triggers.antt =====
-- src/saga_agents/triggers: what starts a run, and how runs are dispatched.
pub mod Base
pub mod Debounce
pub mod Listener
pub mod Lock
pub mod Executor
pub mod Api
pub mod Scheduler
