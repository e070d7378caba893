-- ===== src/App/Lifecycle/Tests.antt =====
-- `main` on directories with one agent file and with two of one id, and the theorem there.
use saga_agents.Common.{
  String, ◌==◌, ◌≡◌, ◌⊎◌, refl, false, List, [], ◌∷◌, Option, none, if◌then◌else◌,
}
use saga_agents.Common.Dict.{lookup, insert}
use saga_agents.Common.Json.{object, end}
use saga_agents.Common.Result.{Result, raised, returned}
use saga_agents.Common.Scan.{segments_from, captures}
use saga_agents.Common.Texts.{strip_prefix, span}
use saga_agents.Config.Models.{GlobalConfig, AgentDefinition, default_definition}
use saga_agents.Config.Loader.{
  LoadError, loaded, split_at_closing, strip, set_field, parse_parts, parse_agent_markdown,
  model_validate, load_from, load_agent_files, load_global_config, check_tools,
}
use saga_agents.Config.Loader.Files.{Parses, Distinct}
use saga_agents.Core.Env.{resolve_env, resolve_tree, replaced, match_token}
use saga_agents.Runtime.Guidance.{
  validate_placeholders, unknown_keys, referenced_keys, match_placeholder,
}
use saga_agents.Proposals.Store.{Store}
use saga_agents.Triggers.Scheduler.{job_id, register}
use saga_agents.App.{definitions_by_id, collect, register_all, build_service}
use saga_agents.App.Lifecycle.{
  Effect, configures_tracing, connects, pings, inits_store, starts_scheduler, spawns_listener,
  serves, stops_listener, shuts_scheduler, closes_redis, Calls, Sources, global_config, run_service,
  serve_until_stopped, shut_down, main,
}
use saga_agents.App.Lifecycle.Startup.{IsRefused, main-cases}

abbrev config : GlobalConfig
config = record {
  mcp = record { base_url = "http://saga"; bearer_token = "t" };
  ollama = record { base_url = "http://ollama"; default_model = "m" };
  redis = record { url = "redis://r"; event_channel = "saga:events" };
  langfuse = record { public_key = ""; secret_key = ""; host = "https://cloud.langfuse.com" };
  runtime = record {
    max_concurrent_runs_global = 2;
    proposals_db = "proposals.db";
    guidance_cache_ttl_seconds = 300;
  };
  agents_dir = "agents";
}

abbrev no_environ : String → Option String
no_environ name = none

-- The file stands at the default path; the directory holds these agent files.
abbrev on_disk : List (String × Result String) → Sources
on_disk files = record {
  read_text = λ path. if path == "config/agents.yaml" then returned "" else raised "no such file";
  markdown_files = λ dir. files;
  safe_load = λ text. returned (object end);
  is_zero = λ text. false;
  validate_config = λ raw. returned config;
  validate_agent =
      λ fields. record { tools_seen = none; definition = returned (default_definition "janitor") };
}

abbrev janitor_md : String
janitor_md = "---\nid: janitor\n---\nTidy up.\n"

abbrev message : LoadError → String
message e = "configuration"

abbrev empty_store : Store (Unit {0})
empty_store = record { db = tt; transitions = [] }

abbrev all_return : Calls
all_return = record {
  from_url = returned tt;
  ping = returned tt;
  store_init = returned tt;
  scheduler_start = returned tt;
  port = returned 8099;
  serve = returned tt;
  listener_stop = returned tt;
  listener_task = none;
  scheduler_shutdown = returned tt;
  close = returned tt;
}

abbrev main_on : List (String × Result String) → List Effect × Result (Unit {0})
main_on files =
    main (on_disk files) no_environ all_return 2 (λ cron. returned tt) message empty_store tt

startup : Unit {0}
unfolding main run_service serve_until_stopped shut_down build_service definitions_by_id collect
    insert lookup register_all load_from register job_id load_global_config load_agent_files
    parse_agent_markdown parse_parts model_validate check_tools split_at_closing strip set_field
    strip_prefix span segments_from captures resolve_env resolve_tree replaced match_token
    validate_placeholders unknown_keys referenced_keys match_placeholder
startup = tt

one_file : main_on (("janitor.md", returned janitor_md) ∷ []) ≡ (
  configures_tracing
      ∷ connects
      ∷ pings
      ∷ inits_store
      ∷ starts_scheduler
      ∷ spawns_listener
      ∷ serves 8099
      ∷ stops_listener
      ∷ shuts_scheduler
      ∷ closes_redis
      ∷ [],
  returned tt,
)
unfolding startup
one_file = refl

two_files :
    main_on (("a.md", returned janitor_md) ∷ ("b.md", returned janitor_md) ∷ [])
    ≡ ([], raised "configuration")
unfolding startup
two_files = refl

abbrev one_on_disk : Sources
one_on_disk = on_disk (("janitor.md", returned janitor_md) ∷ [])

main-cases_example :
    ((e : LoadError) × IsRefused one_on_disk no_environ e
      × (main_on (("janitor.md", returned janitor_md) ∷ []) ≡ ([], raised "configuration")))
    ⊎ ((c : GlobalConfig) × (agents : List AgentDefinition) × (global_config
            (on_disk (("janitor.md", returned janitor_md) ∷ []))
            no_environ
          ≡ loaded c)
        × Parses no_environ
            (λ text. returned (object end))
            (λ text. false)
            (λ fields. record {
              tools_seen = none;
              definition = returned (default_definition "janitor");
            })
            (("janitor.md", returned janitor_md) ∷ [])
            agents
        × Distinct agents
        × (main_on (("janitor.md", returned janitor_md) ∷ [])
            ≡ run_service all_return 2 no_environ
                (λ cron. returned tt)
                message
                empty_store
                tt
                (loaded c)
                (λ dir. loaded agents)))
main-cases_example =
    main-cases (on_disk (("janitor.md", returned janitor_md) ∷ [])) no_environ all_return 2
      (λ cron. returned tt) message empty_store tt
