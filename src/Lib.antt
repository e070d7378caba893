-- ===== src/Lib.antt =====
-- saga-agents: an autonomous runner of agents that maintain a document store over MCP.
--
-- The program reads agent definitions from files, waits for triggers (events from Redis, cron
-- schedules, HTTP requests), submits a run request for each to one executor, and runs an agent
-- through Pydantic AI. An agent in proposal mode changes nothing itself: it records proposals, which
-- a person approves or rejects through the HTTP API. The paths below are from the repository's root.
--
-- Which file models which part:
--   Core/Env            src/saga_agents/core/env.py: the tokens of a text, and the walk over a tree.
--   Config/Models       config/models.py: triggers, tool lists, limits, definitions.
--   Config/Loader       config/loader.py and the validator of ToolsSpec: an agent file as its two
--                       parts, its checks in their order, and the loop over the files.
--   App                 app.py, `build_service`: the table of definitions, the cron jobs, the
--                       listener and the arguments of the API. App/Lifecycle is `run_service` and
--                       `main`: a list of what was done, and a result. App/Agents, Jobs and
--                       Wiring hold the proofs that join the parts, App/Recording the store as the
--                       runner's sink, from a run to the approval of what it proposed, and App/Runs
--                       the runner under the executor.
--   Metrics             metrics/registry.py: the registry, of what the parts have counted.
--   Tracing             tracing/langfuse.py, `configure_tracing`.
--   Triggers/Base       triggers/base.py: a run request.
--   Triggers/Executor   triggers/executor.py, class RunExecutor. Each `submit` is a task with a
--                       phase, one phase for each await; the state holds both semaphores, the Redis
--                       locks, the tasks and the metrics. A step is what the event loop does next, so
--                       a schedule is a list of steps. A Redis call may succeed, be lost, or be
--                       carried out and its answer lost; a submit may be cancelled at any await; a
--                       lock may expire at any step, and other processes may set it. Induction,
--                       Invariant, Safety, Accounting, Exclusion, Outage, Gauges and Progress hold
--                       the proofs. Triggers/Lock is Redis' SET NX and the Lua script.
--   Triggers/Debounce, Triggers/Listener
--                       triggers/redis_listener.py: Debouncer, the trigger states of `__init__`,
--                       `_handle_message` and `_check_due_and_dispatch`, where each awaited submit
--                       lets the listener task handle further messages. Listener/Ticks is
--                       `_tick_loop`, Listener/Messages is `_listener_loop`, and Listener/Lifecycle
--                       is `run` and `stop`.
--   Triggers/Api        triggers/api.py, the token check and the handlers of triggers, approval and
--                       rejection, and proposals/apply.py. A handler is a function from the state to
--                       the state and the reply, or the exception that leaves it;
--                       Api/Overlap splits approval and rejection at their awaits, Api/History
--                       takes them in any sequence, and Api/Queries has the endpoints that read.
--   Triggers/Scheduler  triggers/scheduler.py, and the registration loop of app.py.
--   Proposals/Database  what proposals/store.py asks of SQLite, json and datetime: a record of
--                       statements with laws. Proposals/Store is SqliteProposalStore over it.
--                       Proposals/Memory and Proposals/TextCodec are instances that keep the laws.
--                       Store/Refinement compares the store with a table of proposals.
--   Runtime/Guidance    runtime/guidance.py: the placeholder pattern as a scanner, substitution,
--                       validation, and the cached provider (`get`, with its two clock readings;
--                       Guidance/Overlap has calls of it that overlap).
--   Runtime/Toolset     runtime/toolset.py, `visible_tool_names` and `filtered_server`.
--   Runtime/Session     what one `agent.run` does: the calls that the model makes, and its ending;
--                       runtime/propose.py and `_count_tool_calls`.
--   Runtime/Runner      runtime/runner.py, class AgentRunner: `run` returns a report, raises, or is
--                       cancelled at one of its awaits.
--   Common              lists, dictionaries, JSON values, results: what the parts share. Common/Scan
--                       splits a text by the matches of a pattern, as `re.sub` and `re.findall` do.
--
-- How the parts meet: `build_service` hands the table of enabled definitions to the executor, the
-- listener, the scheduler and the API; the listener and the API make the requests that the
-- executor's tasks carry; the runner offers its proposals to the sink, which is the store; the API
-- reads and decides them.
--
-- Numbers are natural numbers, in Python unbounded too; a time is a number of clock ticks. The
-- functions here recurse on a list, a text or a number, and none is on fuel.
--
-- Parameters, as records or arguments with their laws: SQLite, the text forms of json and datetime,
-- Pydantic AI (an agent calls tools it was offered alone), the factories of models and servers, the
-- tracer, the MCP call, `str`, reading files, YAML, pydantic's validation, the environment, logfire,
-- cron expressions, and the ends of the calls that `run_service` makes.
--
-- Not modelled: SQLite errors other than a taken key; negative limits; exceptions of reading the
-- configuration that are neither an OSError nor a YAMLError; the time that a loop over the trigger
-- states takes (one reading of the clock for a message); APScheduler, FastAPI's routing and the text
-- of the metrics; setting up the logs and the factories of models and MCP calls, which are calls of
-- libraries.
pub mod Common
pub mod Core
pub mod Config
pub mod Runtime
pub mod Proposals
pub mod Triggers
pub mod App
pub mod Tracing
pub mod Metrics
