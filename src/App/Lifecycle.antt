-- ===== src/App/Lifecycle.antt =====
-- `run_service` and `main` of src/saga_agents/app.py: what is called, in which order, and what becomes
-- of an exception. What the calls of asyncio, Redis, SQLite and uvicorn return or raise is a parameter.
pub mod Shutdown
pub mod Startup
mod Tests
use saga_agents.Common.{ℕ, String, List, [], ◌∷◌, ◌++◌, Option, none, some, Bool, true, false}
use saga_agents.Common.Result.{Result, returned, raised}
use saga_agents.Config.Models.{AgentDefinition, GlobalConfig}
use saga_agents.Common.Json.{Json, Fields}
use saga_agents.Config.Loader.{
  LoadError, Loaded, loaded, refused, Validation, load_agent_files, load_global_config,
}
use saga_agents.Proposals.Store.{Store}
use saga_agents.Triggers.Scheduler
use saga_agents.App.{ListenerArgs, Service, build_service}

pub data Effect : Type 0 where
  configures_tracing connects pings inits_store starts_scheduler spawns_listener : Effect
  serves : ℕ → Effect
  stops_listener cancels_listener shuts_scheduler closes_redis : Effect

-- What was done, and how it ended.
abbrev pub Trace : Type 0 → Type 0
Trace A = List Effect × Result A

infixl 5 ◌>>=◌
abbrev pub ◌>>=◌ : {A B : Type 0} → Trace A → (A → Trace B) → Trace B
(es, returned a) >>= f = let (es', r) = f a in (es ++ es', r)
(es, raised e) >>= f = (es, raised e)

abbrev pub effect : {A : Type 0} → Effect → Result A → Trace A
effect e r = (e ∷ [], r)

abbrev pub silent : {A : Type 0} → Result A → Trace A
silent r = ([], r)

-- `except Exception as exc: log.warning(…)`
abbrev pub logged : Trace (Unit {0}) → Trace (Unit {0})
logged (es, r) = (es, returned tt)

-- `try: … finally: …`
abbrev pub finally : {A : Type 0} → Trace A → Trace (Unit {0}) → Trace A
finally (es, r) (es', returned u) = (es ++ es', r)
finally (es, r) (es', raised e) = (es ++ es', raised e)

abbrev pub or_raise : {A : Type 0} → (LoadError → String) → Loaded A → Result A
or_raise message (loaded a) = returned a
or_raise message (refused e) = raised (message e)

-- What the calls return or raise: opening the client, the ping, `init` of the proposal store, the
-- start of the scheduler, the port number, the server, `stop` of the listener, its task once it was
-- cancelled (or none where it was done), the shutdown of the scheduler, the close of the client.
pub record Calls : Type 0 where
  pub from_url : Result (Unit {0})
  pub ping : Result (Unit {0})
  pub store_init : Result (Unit {0})
  pub scheduler_start : Result (Unit {0})
  pub port : Result ℕ
  pub serve : Result (Unit {0})
  pub listener_stop : Result (Unit {0})
  pub listener_task : Option (Result (Unit {0}))
  pub scheduler_shutdown : Result (Unit {0})
  pub close : Result (Unit {0})

module _ (calls : Calls) where
  abbrev pub spawn : Option ListenerArgs → Trace (Unit {0})
  spawn none = silent (returned tt)
  spawn (some l) = effect spawns_listener (returned tt)

  abbrev pub stop_listener : Option ListenerArgs → Trace (Unit {0})
  stop_listener none = silent (returned tt)
  stop_listener (some l) = effect stops_listener calls.listener_stop

  -- `listener_task is not None and not listener_task.done()`
  abbrev pub cancel_listener : Option ListenerArgs → Option (Result (Unit {0})) → Trace (Unit {0})
  cancel_listener none task = silent (returned tt)
  cancel_listener (some l) none = silent (returned tt)
  cancel_listener (some l) (some r) = effect cancels_listener r

  -- The `finally` branch.
  unfoldable pub shut_down : Option ListenerArgs → Trace (Unit {0})
  shut_down listener = do
    stopped ← stop_listener listener
    cancelled ← cancel_listener listener calls.listener_task
    shut ← effect shuts_scheduler (Scheduler.shutdown calls.scheduler_shutdown true).0
    logged (effect closes_redis calls.close)

  -- From the start of the subsystems on.
  unfoldable pub serve_until_stopped : Option ListenerArgs → Trace (Unit {0})
  unfolding shut_down
  serve_until_stopped listener = do
    started ← effect starts_scheduler (Scheduler.start calls.scheduler_start false).0
    spawned ← spawn listener
    port ← silent calls.port
    finally (effect (serves port) calls.serve) (shut_down listener)

  module _ {Db Call : Type 0} (second : ℕ) (environ : String → Option String)
      (from_crontab : String → Result (Unit {0})) (message : LoadError → String) (store : Store Db)
      (mcp_call : Call) where
    unfoldable pub run_service :
        Loaded GlobalConfig → (String → Loaded (List AgentDefinition)) → Trace (Unit {0})
    unfolding serve_until_stopped
    run_service global_config agent_files = do
      config ← silent (or_raise message global_config)
      definitions ← silent (or_raise message (agent_files config.agents_dir))
      traced ← effect configures_tracing (returned tt)
      connected ← effect connects calls.from_url
      pinged ← logged (effect pings calls.ping)
      stored ← effect inits_store calls.store_init
      service ← silent (
          build_service second environ from_crontab config definitions true (some store)
            (some mcp_call))
      serve_until_stopped service.listener

-- os.environ.get("SAGA_AGENTS_CONFIG", "config/agents.yaml")
abbrev pub config_path : Option String → String
config_path none = "config/agents.yaml"
config_path (some path) = path

-- What is read from disk, and what the libraries make of it: the text of a file, the agent files of a
-- directory in the order of their names, YAML, and the two schemas.
pub record Sources : Type 0 where
  pub read_text : String → Result String
  pub markdown_files : String → List (String × Result String)
  pub safe_load : String → Result Json
  pub is_zero : String → Bool
  pub validate_config : Json → Result GlobalConfig
  pub validate_agent : Fields → Validation

module _ (sources : Sources) (environ : String → Option String) where
  open sources use {read_text, markdown_files, safe_load, is_zero, validate_config, validate_agent}

  -- `load_global_config(config_path)` and `load_agent_files(config.agents_dir)`
  abbrev pub global_config : Loaded GlobalConfig
  global_config =
      load_global_config environ safe_load is_zero validate_config
        (read_text (config_path (environ "SAGA_AGENTS_CONFIG")))

  abbrev pub agent_files : String → Loaded (List AgentDefinition)
  agent_files dir = load_agent_files environ safe_load is_zero validate_agent (markdown_files dir)

  unfoldable pub main :
      {Db Call : Type 0}
      → Calls
      → ℕ
      → (String → Result (Unit {0}))
      → (LoadError → String)
      → Store Db
      → Call
      → Trace (Unit {0})
  main calls second from_crontab message store mcp_call =
      run_service calls second environ from_crontab message store mcp_call global_config agent_files
