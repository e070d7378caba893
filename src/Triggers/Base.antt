-- ===== src/Triggers/Base.antt =====
-- src/saga_agents/triggers/base.py. No caller passes `context`, which keeps its empty default.
use saga_agents.Common.{String}

pub record RunRequest : Type 0 where
  pub agent_id : String
  pub reason : String
