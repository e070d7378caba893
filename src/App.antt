-- ===== src/App.antt =====
-- src/saga_agents/app.py: `build_service`, over the parts that it wires. The environment, the parser
-- of cron expressions, the Redis client and the coroutine that calls MCP tools are parameters.
pub mod Agents
pub mod Jobs
pub mod Wiring
pub mod Recording
pub mod Runs
pub mod Lifecycle
mod Tests
use saga_agents.Common.{
  ℕ, String, ◌==◌, Bool, true, false, ◌||◌, List, [], ◌∷◌, Option, none, some, if◌then◌else◌,
}
use saga_agents.Common.Dict.{Dict, insert}
use saga_agents.Common.Result.{Result, returned, raised, ◌>>=◌}
use saga_agents.Config.Models.{AgentDefinition, GlobalConfig}
use saga_agents.Proposals.Store.{Store}
use saga_agents.Triggers.Executor.{Settings}
use saga_agents.Triggers.Listener.{AgentTriggerState}
use saga_agents.Triggers.Listener
use saga_agents.Triggers.Scheduler.{Job, register}

-- The arguments of AgentRunner.
pub record RunnerArgs (Db : Type 0) : Type 0 where
  pub config : GlobalConfig
  pub proposal_sink : Option (Store Db)

-- The arguments of RedisListener that it keeps, and its states.
pub record ListenerArgs : Type 0 where
  pub channel : String
  pub states : List AgentTriggerState

-- The arguments of `build_api`.
pub record ApiArgs (Db Call : Type 0) : Type 0 where
  pub definitions : Dict AgentDefinition
  pub expected_token : String
  pub proposal_store : Option (Store Db)
  pub mcp_call : Option Call

-- The service, with the gauge AGENT_CONCURRENCY_LIMIT and whether the warning of an insecure token
-- was logged.
pub record Service (Db Call : Type 0) : Type 0 where
  pub runner : RunnerArgs Db
  pub executor : Settings
  pub scheduler : Dict Job
  pub listener : Option ListenerArgs
  pub api : ApiArgs Db Call
  pub concurrency_limit : ℕ
  pub token_warned : Bool

-- The loop of the comprehension `{d.id: d for d in definitions if d.enabled}`.
unfoldable pub collect : List AgentDefinition → Dict AgentDefinition → Dict AgentDefinition
collect [] by_id = by_id
collect (d ∷ definitions) by_id =
    collect definitions (if d.enabled then insert d.id d by_id else by_id)

unfoldable pub definitions_by_id : List AgentDefinition → Dict AgentDefinition
definitions_by_id definitions = collect definitions []

-- The loop over `definitions_by_id.values()`.
unfoldable pub register_all :
    (String → Result (Unit {0})) → Dict AgentDefinition → Dict Job → Result (Dict Job)
register_all from_crontab [] jobs = returned jobs
register_all from_crontab ((key, d) ∷ rest) jobs = do
  jobs' ← register from_crontab d.id d.triggers jobs
  register_all from_crontab rest jobs'

-- os.environ.get("AGENTS_EXTERNAL_TOKEN", "changeme")
abbrev pub external_token : Option String → String
external_token none = "changeme"
external_token (some token) = token

-- `not external_token or external_token == "changeme"`
abbrev pub is_insecure : String → Bool
is_insecure token = token == "" || token == "changeme"

module _ (second : ℕ) where
  -- Only with a Redis client.
  abbrev pub listener_args : Bool → String → Dict AgentDefinition → Option ListenerArgs
  listener_args false channel definitions = none
  listener_args true channel definitions =
      some (record { channel = channel; states = Listener.init second definitions })

  unfoldable pub build_service :
      {Db Call : Type 0}
      → (String → Option String)
      → (String → Result (Unit {0}))
      → GlobalConfig
      → List AgentDefinition
      → Bool
      → Option (Store Db)
      → Option Call
      → Result (Service Db Call)
  build_service environ from_crontab config definitions redis proposal_store mcp_call =
      let by_id = definitions_by_id definitions in
      let token = external_token (environ "AGENTS_EXTERNAL_TOKEN") in
      do
        jobs ← register_all from_crontab by_id []
        returned (record {
          runner = record { config = config; proposal_sink = proposal_store };
          executor = record {
            definitions = by_id;
            global_limit = config.runtime.max_concurrent_runs_global;
            redis = redis;
          };
          scheduler = jobs;
          listener = listener_args redis config.redis.event_channel by_id;
          api = record {
            definitions = by_id;
            expected_token = token;
            proposal_store = proposal_store;
            mcp_call = mcp_call;
          };
          concurrency_limit = config.runtime.max_concurrent_runs_global;
          token_warned = is_insecure token;
        })
