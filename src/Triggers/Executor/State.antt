-- ===== src/Triggers/Executor/State.antt =====
-- The state of class RunExecutor (src/saga_agents/triggers/executor.py): where each submit waits, and
-- the events that let it go on.
use saga_agents.Common.{ℕ, String, Bool, List, Option}
use saga_agents.Common.Dict.{Dict}
use saga_agents.Config.Models.{AgentDefinition}
use saga_agents.Runtime.Report.{RunStatus}
use saga_agents.Triggers.Base.{RunRequest}

-- What the executor is built from. `redis` is whether a client was given.
pub record Settings : Type 0 where
  pub definitions : Dict AgentDefinition
  pub global_limit : ℕ
  pub redis : Bool

-- `runner.run` returns a report with this status, raises an Exception, or is cancelled: a
-- CancelledError is no Exception.
pub data RunEnd : Type 0 where
  returns : RunStatus → RunEnd
  raises cancels : RunEnd

-- How a submit ended. `raised` is the exception of `redis.set`, which leaves `submit`. A CancelledError
-- leaves it too: `cancelled` before the run began, `interrupted` in the run (`interrupted cancels`) or
-- in the release of the lock, when the run had ended so.
pub data Outcome : Type 0 where
  skipped_unknown_or_disabled skipped_redis_lock raised failed cancelled : Outcome
  reported : RunStatus → Outcome
  interrupted : RunEnd → Outcome

-- Where a submit waits. A number is the call of uuid4 that made the lock token.
pub data Phase : Type 0 where
  waits_global waits_agent : Phase
  setting : ℕ → Phase
  running : Option ℕ → Phase
  releasing : ℕ → RunEnd → Phase
  ended : Outcome → Phase

pub record Task : Type 0 where
  pub req : RunRequest
  pub phase : Phase

-- One increment of AGENT_RUNS; `true` is result="ok".
pub record RunCount : Type 0 where
  pub agent_id : String
  pub trigger : String
  pub result : Bool

-- The gauge AGENT_INFLIGHT is kept as the numbers of its increments and decrements.
pub record Executor (Store : Type 0) : Type 0 where
  pub global_sem : ℕ
  pub agent_sems : String → ℕ
  pub locks : Store
  pub uuids : ℕ
  pub inflight_incs : ℕ
  pub inflight_decs : ℕ
  pub durations : List String
  pub runs : List RunCount
  pub tasks : List Task

-- A command to Redis arrives and is answered; or it fails before it arrives, or after.
pub data Delivery : Type 0 where
  answered lost_request lost_reply : Delivery

pub data Event : Type 0 where
  submits : RunRequest → Event
  global_permit agent_permit : ℕ → Event
  set_ends : ℕ → Delivery → Event
  run_ends : ℕ → RunEnd → Event
  eval_ends : ℕ → Delivery → Event
  cancel_comes : ℕ → Delivery → Event
  expires : String → Event
  others_set others_eval : String → ℕ → Event
