-- ===== src/Metrics/Tests.antt =====
-- The registry of a service whose one run is in progress.
use saga_agents.Common.{String, ◌≡◌, refl, true, false, List, [], ◌∷◌, Option, none, some}
use saga_agents.Common.Dict.{insert, lookup}
use saga_agents.Common.Result.{Result, returned}
use saga_agents.Config.Models.{GlobalConfig, default_definition}
use saga_agents.Triggers.Executor.{
  Event, submits, global_permit, agent_permit, run_ends, raises, run, step, init, first_phase,
  take_global, take_agent, after_run, agent_limit,
}
use saga_agents.Triggers.Lock.Memory.{memory, no_locks}
use saga_agents.Triggers.Scheduler.{register}
use saga_agents.App.{Service, build_service, definitions_by_id, collect, register_all}
use saga_agents.Metrics.{Registry, registry, IsConsistent, registry-IsConsistent}

abbrev config : GlobalConfig
config = record {
  mcp = record { base_url = "http://saga"; bearer_token = "t" };
  ollama = record { base_url = "http://ollama"; default_model = "m" };
  redis = record { url = "redis://r"; event_channel = "saga:events" };
  langfuse = record { public_key = ""; secret_key = ""; host = "https://cloud.langfuse.com" };
  runtime = record {
    max_concurrent_runs_global = 2;
    proposals_db = "proposals.db";
    guidance_cache_ttl_seconds = 300;
  };
  agents_dir = "config/agents";
}

abbrev no_environ : String → Option String
no_environ name = none

abbrev any_cron : String → Result (Unit {0})
any_cron cron = returned tt

-- Without a Redis client.
abbrev service : Service (Unit {0}) (Unit {0})
service = record {
  runner = record { config = config; proposal_sink = none };
  executor = record {
    definitions = ("a", default_definition "a") ∷ [];
    global_limit = 2;
    redis = false;
  };
  scheduler = [];
  listener = none;
  api = record {
    definitions = ("a", default_definition "a") ∷ [];
    expected_token = "changeme";
    proposal_store = none;
    mcp_call = none;
  };
  concurrency_limit = 2;
  token_warned = true;
}

built :
    build_service 2 no_environ any_cron config (default_definition "a" ∷ []) false none none
    ≡ returned service
unfolding build_service definitions_by_id collect insert register_all register
built = refl

-- One run has raised, and a second one is in progress.
abbrev schedule : List Event
schedule =
    submits (record { agent_id = "a"; reason = "external" })
    ∷ global_permit 0
    ∷ agent_permit 0
    ∷ run_ends 0 raises
    ∷ submits (record { agent_id = "a"; reason = "schedule" })
    ∷ global_permit 1
    ∷ agent_permit 1
    ∷ []

abbrev shown : Registry
shown =
    registry service (run memory service.executor schedule (init service.executor no_locks))
      (some (record { db = tt; transitions = "applied" ∷ [] }))

shown-eq : shown ≡ record {
  runs = record { agent_id = "a"; trigger = "external"; result = false } ∷ [];
  run_duration = "a" ∷ [];
  inflight_incs = 2;
  inflight_decs = 1;
  concurrency_limit = 2;
  proposals = "applied" ∷ [];
  tokens = [];
}
unfolding registry run step init first_phase take_global take_agent after_run agent_limit lookup
shown-eq = refl

registry-IsConsistent_example : IsConsistent shown
registry-IsConsistent_example =
    registry-IsConsistent 2 no_environ any_cron config (default_definition "a" ∷ []) false none none
      service built memory schedule no_locks
      (some (record { db = tt; transitions = "applied" ∷ [] }))
