-- ===== src/Runtime/Report.antt =====
-- src/saga_agents/runtime/report.py.
use saga_agents.Common.{ℕ, String, List, Option}
use saga_agents.Common.Dict.{Dict}
use saga_agents.Common.Json.{Json}

pub data RunStatus : Type 0 where
  ok limit_exceeded timeout error : RunStatus

pub record ProposedAction : Type 0 where
  pub action : String
  pub arguments : Dict Json
  pub rationale : String

pub record RunDeps : Type 0 where
  pub run_id : String
  pub agent_id : String
  pub proposals : List ProposedAction

pub record RunReport : Type 0 where
  pub run_id : String
  pub agent_id : String
  pub status : RunStatus
  pub summary : String
  pub tool_calls : ℕ
  pub proposals : List ProposedAction
  pub error : Option String
  pub trace_id : Option String
