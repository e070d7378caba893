-- ===== src/App/Tests.antt =====
-- A service of two agents, of which one is enabled.
use Prim.Native.String
use saga_agents.Common.{
  ℕ, suc, String, ◌==◌, ◌≡◌, ◌⊎◌, refl, true, false, List, [], ◌∷◌, Option, none, some, get_elem?,
  All, if◌then◌else◌,
}
use saga_agents.Common.Dict.{Dict, lookup, insert}
use saga_agents.Common.Int.{pos}
use saga_agents.Common.Result.{Result, raised, returned}
use saga_agents.Config.Models.{
  GlobalConfig, AgentDefinition, EventTrigger, event, schedule, default_definition,
}
use saga_agents.Config.Loader.Files.{Distinct}
use saga_agents.Triggers.Base.{RunRequest}
use saga_agents.Proposals.Store.{Store}
use saga_agents.Triggers.Executor.{waits_global, ended, skipped_unknown_or_disabled, first_phase}
use saga_agents.Triggers.Api.{http_error, accepted, trigger_agent}
use saga_agents.Triggers.Scheduler.{job_id, fired, last_job, register}
use saga_agents.Triggers.Listener.{AgentTriggerState}
use saga_agents.Triggers.Listener
use saga_agents.App.{Service, definitions_by_id, collect, register_all, ListenerArgs, build_service}
use saga_agents.App.Agents.{IsListed}
use saga_agents.Config.Loader.{LoadError, loaded}
use saga_agents.App.Lifecycle.{
  configures_tracing, connects, pings, inits_store, starts_scheduler, spawns_listener, serves,
  stops_listener, cancels_listener, shuts_scheduler, closes_redis, Calls, run_service,
  serve_until_stopped, shut_down,
}
use saga_agents.App.Lifecycle.Shutdown.{Ends, run_service-Ends}
use saga_agents.App.Wiring.{
  IsUnlisted, IsListedState, build_service-agents, build_service-jobs, build_service-debounced,
}

abbrev config : GlobalConfig
config = record {
  mcp = record { base_url = "http://saga"; bearer_token = "t" };
  ollama = record { base_url = "http://ollama"; default_model = "m" };
  redis = record { url = "redis://r"; event_channel = "saga:events" };
  langfuse = record { public_key = ""; secret_key = ""; host = "https://cloud.langfuse.com" };
  runtime = record {
    max_concurrent_runs_global = 2;
    proposals_db = "proposals.db";
    guidance_cache_ttl_seconds = 300;
  };
  agents_dir = "config/agents";
}

abbrev on_import : EventTrigger
on_import = record { topics = "import" ∷ []; debounce_minutes = pos 5 }

abbrev janitor : AgentDefinition
janitor = record (default_definition "janitor") {
  triggers = schedule (record { cron = "0 3 * * *" }) ∷ event on_import ∷ [];
}

abbrev retired : AgentDefinition
retired = record (default_definition "retired") { enabled = false }

abbrev agents : List AgentDefinition
agents = janitor ∷ retired ∷ []

abbrev environ : String → Option String
environ name = if name == "AGENTS_EXTERNAL_TOKEN" then some "secret" else none

abbrev parses : String → Result (Unit {0})
parses cron = returned tt

abbrev by_id : Dict AgentDefinition
by_id = ("janitor", janitor) ∷ []

abbrev service : Service (Unit {0}) (Unit {0})
service = record {
  runner = record { config = config; proposal_sink = none };
  executor = record { definitions = by_id; global_limit = 2; redis = true };
  scheduler = ("cron:janitor", record { cron = "0 3 * * *"; request = fired "janitor" }) ∷ [];
  listener = some (record { channel = "saga:events"; states = Listener.init 2 by_id });
  api = record {
    definitions = by_id;
    expected_token = "secret";
    proposal_store = none;
    mcp_call = none;
  };
  concurrency_limit = 2;
  token_warned = false;
}

built : build_service 2 environ parses config agents true none none ≡ returned service
unfolding build_service definitions_by_id collect insert register_all register job_id
built = refl

distinct : Distinct agents
distinct = ((refl, tt), (tt, tt))

abbrev submit : RunRequest → ℕ → ℕ × Result (Unit {0})
submit req n = (suc n, returned tt)

build_service-agents_example :
    ((a : AgentDefinition) × IsListed "retired" a agents
      × (first_phase service.executor (record { agent_id = "retired"; reason = "external" })
          ≡ waits_global)
      × (trigger_agent by_id "secret" submit (some (String.◌++◌ "Bearer " "secret")) "retired" 0
          ≡ accepted "retired" (submit (record { agent_id = "retired"; reason = "external" }) 0)))
    ⊎ (IsUnlisted "retired" agents
        × (first_phase service.executor (record { agent_id = "retired"; reason = "external" })
            ≡ ended skipped_unknown_or_disabled)
        × (trigger_agent by_id "secret" submit (some (String.◌++◌ "Bearer " "secret")) "retired" 0
            ≡ (0, returned (http_error 404 (String.◌++◌ "Unknown agent: " "retired")))))
build_service-agents_example =
    build_service-agents 2 environ parses config agents true none none service built distinct submit
      0 "retired" "external"

build_service-jobs_example :
    ((a : AgentDefinition) × IsListed "janitor" a agents
      × (lookup (job_id "janitor") service.scheduler ≡ last_job "janitor" a.triggers none))
    ⊎ (IsUnlisted "janitor" agents × (lookup (job_id "janitor") service.scheduler ≡ none))
build_service-jobs_example =
    build_service-jobs 2 environ parses config agents true none none service built distinct
      "janitor"

build_service-debounced_example :
    (l : ListenerArgs) × (service.listener ≡ some l)
    × (l.channel ≡ "saga:events")
    × ((k : ℕ) × (s : AgentTriggerState) × (get_elem? l.states k ≡ some s)
        × (s.agent_id ≡ "janitor")
        × (s.topics ≡ "import" ∷ []))
    × All (IsListedState 2 agents) l.states
build_service-debounced_example =
    build_service-debounced 2 environ parses config agents true none none service built distinct
      refl janitor "janitor" (0, refl, refl, refl) 1 on_import refl

-- The server is interrupted while the listener's task still runs, and the client does not close.
abbrev interrupted : Calls
interrupted = record {
  from_url = returned tt;
  ping = raised "no connection";
  store_init = returned tt;
  scheduler_start = returned tt;
  port = returned 8099;
  serve = raised "interrupted";
  listener_stop = returned tt;
  listener_task = some (returned tt);
  scheduler_shutdown = returned tt;
  close = raised "no connection";
}

abbrev message : LoadError → String
message e = "configuration"

abbrev empty_store : Store (Unit {0})
empty_store = record { db = tt; transitions = [] }

run_service-Ends_example :
    Ends interrupted
      (configures_tracing ∷ connects ∷ pings ∷ inits_store ∷ starts_scheduler ∷ spawns_listener
        ∷ [])
      (run_service interrupted 2 environ parses message empty_store tt
        (loaded config)
        (λ dir. loaded agents))
run_service-Ends_example =
    run_service-Ends interrupted refl refl refl 2 environ parses message empty_store tt
      (loaded config) (λ dir. loaded agents)

all_done :
    run_service interrupted 2 environ parses message empty_store tt
      (loaded config)
      (λ dir. loaded agents)
    ≡ (
      configures_tracing
          ∷ connects
          ∷ pings
          ∷ inits_store
          ∷ starts_scheduler
          ∷ spawns_listener
          ∷ serves 8099
          ∷ stops_listener
          ∷ cancels_listener
          ∷ shuts_scheduler
          ∷ closes_redis
          ∷ [],
      raised "interrupted",
    )
unfolding run_service serve_until_stopped shut_down build_service definitions_by_id collect insert
    register_all register job_id
all_done = refl
