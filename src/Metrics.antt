-- ===== src/Metrics.antt =====
-- src/saga_agents/metrics/registry.py: the registry, put together from what the parts have counted,
-- and the endpoint of src/saga_agents/triggers/api.py that shows it. The text format is the Prometheus
-- library's.
mod Tests
use saga_agents.Common.{ℕ, ◌+◌, ◌≤◌, ◌≡◌, String, List, [], Option, none, some, Bool, arith, length}
use saga_agents.Common.Result.{Result, returned}
use saga_agents.Config.Models.{AgentDefinition, GlobalConfig}
use saga_agents.Proposals.Store.{Store}
use saga_agents.Triggers.Lock.{LockService}
use saga_agents.Triggers.Executor.{Executor, RunCount, Event, init, run}
use saga_agents.Triggers.Executor.Gauges.{reachable-metrics}
use saga_agents.Triggers.Api.{Reply, exposition}
use saga_agents.App.{Service, build_service}
use saga_agents.App.Wiring.{parts}

-- The labels of AGENT_TOKENS.
pub record TokenCount : Type 0 where
  pub agent_id : String
  pub model : String
  pub kind : String

-- AGENT_REGISTRY: a counter and a histogram as the list of their increments and observations, by
-- label; a gauge as its increments and decrements, or as the value that was set.
pub record Registry : Type 0 where
  pub runs : List RunCount
  pub run_duration : List String
  pub inflight_incs : ℕ
  pub inflight_decs : ℕ
  pub concurrency_limit : ℕ
  pub proposals : List String
  pub tokens : List TokenCount

abbrev proposal_counts : {Db : Type 0} → Option (Store Db) → List String
proposal_counts none = []
proposal_counts (some s) = s.transitions

-- No part of the program increments AGENT_TOKENS.
unfoldable pub registry :
    {Db Call Locks : Type 0} → Service Db Call → Executor Locks → Option (Store Db) → Registry
registry service executor store = record {
  runs = executor.runs;
  run_duration = executor.durations;
  inflight_incs = executor.inflight_incs;
  inflight_decs = executor.inflight_decs;
  concurrency_limit = service.concurrency_limit;
  proposals = proposal_counts store;
  tokens = [];
}

-- GET /metrics, which asks for no token. `generate_latest` is the library's.
abbrev pub metrics : (Registry → String) → Registry → Reply
metrics generate_latest r = exposition (generate_latest r)

-- The metrics of a registry fit together.
pub record IsConsistent (r : Registry) : Type 0 where
  pub counted : length r.runs ≤ length r.run_duration
  pub observed : length r.run_duration ≡ r.inflight_decs
  pub not_negative : r.inflight_decs ≤ r.inflight_incs
  pub limited : r.inflight_incs ≤ r.inflight_decs + r.concurrency_limit

-- Of a service that `build_service` returned, and in every state that its executor reaches by a
-- schedule: AGENT_RUNS counts no more runs than AGENT_RUN_DURATION has observed, these are as many as
-- AGENT_INFLIGHT was lowered for, and AGENT_INFLIGHT is between zero and AGENT_CONCURRENCY_LIMIT.
pub registry-IsConsistent :
    {Db Call : Type 0} (second : ℕ) (environ : String → Option String)
    (from_crontab : String → Result (Unit {0})) (config : GlobalConfig)
    (agents : List AgentDefinition) (redis : Bool) (proposal_store : Option (Store Db))
    (mcp_call : Option Call) (service : Service Db Call)
    → build_service second environ from_crontab config agents redis proposal_store mcp_call
      ≡ returned service
    → (locking : LockService) (es : List Event) (locks : locking.Store) (store : Option (Store Db))
    → IsConsistent
        (registry service (run locking service.executor es (init service.executor locks)) store)
unfolding registry
registry-IsConsistent second environ from_crontab config agents redis proposal_store mcp_call
      service built locking es locks store =
    let (runs, durations, above, below) = reachable-metrics locking service.executor es locks in
    let limit =
      (parts second environ from_crontab config agents redis proposal_store mcp_call service
        built).5 in
    record {
      counted = runs;
      observed = durations;
      not_negative = above;
      limited = omega (arith, below, limit);
    }
