-- ===== src/Runtime/Runner.antt =====
-- class AgentRunner of src/saga_agents/runtime/runner.py. The model factory, the MCP server factory,
-- the guidance provider, the tracer and the proposal sink are parameters, as they are arguments of
-- the class.
mod Persistence
pub mod Cases
pub mod Safety
pub mod Reports
pub mod Returns
unfoldable pub use Persistence.*
use Prim.Native.String
use mathlib.Core.Option
use saga_agents.Common.{
  ℕ, String, ◌==◌, Bool, true, false, List, [], ◌∷◌, Option, none, some, if◌then◌else◌,
}
use saga_agents.Common.Dict.{Dict}
use saga_agents.Common.Result.{Result, returned, raised, Awaited, completes, fails, is_cancelled}
use saga_agents.Config.Models.{GlobalConfig, AgentDefinition, Autonomy, proposal, autonomous}
use saga_agents.Runtime.Report.{RunStatus, ok, ProposedAction, RunReport}
use saga_agents.Runtime.Guidance.{
  Fetched, fetched, fetch_error, other_error, fetch_cancelled, referenced_keys, substitute,
}
use saga_agents.Runtime.Toolset.{visible_tool_names, filtered_server}
use saga_agents.Runtime.Session.{
  AgentCall, AgentSpec, Agents, Session, Outcome, failing, outcome_of, proposals_of,
}

-- The context of the current span.
pub record SpanContext : Type 0 where
  pub trace_id : ℕ
  pub is_valid : Bool

-- Without tracing, the context is not valid.
unfoldable pub current_trace_id : (ℕ → String) → SpanContext → Option String
current_trace_id format_hex context =
    if context.is_valid then some (format_hex context.trace_id) else none

-- The guidance provider and the proposal sink after a run, the calls that the model made in it, and
-- the report, the exception that left `run`, or its cancellation.
pub record Run (G S : Type 0) : Type 0 where
  pub guidance : G
  pub sink : S
  pub calls : List AgentCall
  pub result : Awaited RunReport

abbrev is_proposal : Autonomy → Bool
is_proposal proposal = true
is_proposal autonomous = false

-- `definition.model or default_model`
abbrev pub model_name : Option String → String → String
model_name none default = default
model_name (some name) default = if name == "" then default else name

abbrev pub default_prompt : Option String → String
default_prompt none = "Run your maintenance task now."
default_prompt (some prompt) = prompt

-- AgentRunner, with Pydantic AI, `str` of an integer and `format` of one by "032x".
pub record AgentRunner (Model Server G S : Type 0) : Type 0 where
  pub config : GlobalConfig
  pub model_factory : String → String → Result Model
  pub mcp_server_factory : String → String → Result Server
  pub guidance_get : G → G × Fetched (Dict String)
  pub proposal_sink : Option (String → String → ProposedAction → S → S × Awaited (Unit {0}))
  pub agents : Agents Model Server
  pub show : ℕ → String
  pub format_hex : ℕ → String

module _ {Model Server G S : Type 0} (runner : AgentRunner Model Server G S) where
  open runner use {
    config, model_factory, mcp_server_factory, guidance_get, proposal_sink, agents, show,
    format_hex,
  }

  abbrev pub substituted : String → G × Fetched (Dict String) → G × Fetched String
  substituted prompt (g, fetched guidance) = (g, fetched (substitute prompt guidance))
  substituted prompt (g, fetch_error e) = (g, fetch_error e)
  substituted prompt (g, other_error e) = (g, other_error e)
  substituted prompt (g, fetch_cancelled) = (g, fetch_cancelled)

  -- `_resolve_system_prompt`
  unfoldable pub resolve_system_prompt : AgentDefinition → G → G × Fetched String
  resolve_system_prompt definition g = elim (referenced_keys definition.system_prompt) [
    | [] ↦ (g, fetched definition.system_prompt)
    | _ ∷ _ ↦ substituted definition.system_prompt (guidance_get g)
  ]

  unfoldable pub spec_of :
      AgentDefinition → Option String → Model → Server → String → AgentSpec Model Server
  unfolding visible_tool_names filtered_server
  spec_of definition prompt model server instructions = record {
    model = model;
    toolset = filtered_server server (visible_tool_names definition.tools definition.autonomy);
    with_propose = is_proposal definition.autonomy;
    instructions = instructions;
    prompt = default_prompt prompt;
    request_limit = definition.limits.max_steps;
    tool_calls_limit = definition.limits.max_tool_calls;
    timeout_seconds = definition.limits.timeout_seconds;
  }

  -- The run inside its span: an exception of the tracer ends it before the agent runs.
  unfoldable pub session_of : AgentSpec Model Server → Result SpanContext → Session × Option String
  unfolding current_trace_id
  session_of spec (raised e) = (record { calls = []; ending = failing e }, none)
  session_of spec (returned context) = (agents.run spec, current_trace_id format_hex context)

  abbrev pub escaped : String → G → S → Run G S
  escaped e g s = record { guidance = g; sink = s; calls = []; result = fails e }

  abbrev pub cancelled_at : List AgentCall → G → S → Run G S
  cancelled_at calls g s = record { guidance = g; sink = s; calls = calls; result = is_cancelled }

  abbrev pub report_of :
      AgentDefinition
      → String
      → List AgentCall
      → Option String
      → G
      → Outcome
      → S × Persisted
      → Run G S
  report_of definition run_id calls trace_id g o (s, persisted persistence_error) = record {
    guidance = g;
    sink = s;
    calls = calls;
    result = completes (record {
      run_id = run_id;
      agent_id = definition.id;
      status = o.status;
      summary = summary_of o.status o.summary persistence_error;
      tool_calls = o.tool_calls;
      proposals = proposals_of calls;
      error = o.error;
      trace_id = trace_id;
    });
  }
  report_of definition run_id calls trace_id g o (s, stopped) = cancelled_at calls g s

  abbrev pub report_outcome :
      AgentDefinition → String → List AgentCall → Option String → G → S → Option Outcome → Run G S
  report_outcome definition run_id calls trace_id g s none = cancelled_at calls g s
  report_outcome definition run_id calls trace_id g s (some o) =
      report_of definition run_id calls trace_id g o (
        persist_if definition.autonomy (Option.map (λ add. add definition.id run_id) proposal_sink)
          (proposals_of calls) s)

  -- `run` from its point 7 on
  unfoldable pub report_run : AgentDefinition → String → Session × Option String → G → S → Run G S
  unfolding outcome_of proposals_of persist_if summary_of
  report_run definition run_id (session, trace_id) g s =
      report_outcome definition run_id session.calls trace_id g s
        (outcome_of show definition.limits.timeout_seconds session.ending)

  abbrev pub guidance_failed : AgentDefinition → String → String → G → S → Run G S
  guidance_failed definition run_id e g s = record {
    guidance = g;
    sink = s;
    calls = [];
    result = completes (record {
      run_id = run_id;
      agent_id = definition.id;
      status = RunStatus.error;
      summary = "";
      tool_calls = 0;
      proposals = [];
      error = some e;
      trace_id = none;
    });
  }

  abbrev pub run_built :
      AgentDefinition
      → String
      → AgentSpec Model Server
      → Result SpanContext
      → G
      → S
      → Result (Unit {0})
      → Run G S
  run_built definition run_id spec tracing g s (raised e) = escaped e g s
  run_built definition run_id spec tracing g s (returned done) =
      report_run definition run_id (session_of spec tracing) g s

  abbrev pub run_prompted :
      AgentDefinition
      → Option String
      → String
      → Result SpanContext
      → Model
      → Server
      → S
      → G × Fetched String
      → Run G S
  run_prompted definition prompt run_id tracing model server s (g, fetched instructions) =
      let spec = spec_of definition prompt model server instructions in
      run_built definition run_id spec tracing g s (agents.build spec)
  run_prompted definition prompt run_id tracing model server s (g, fetch_error e) =
      guidance_failed definition run_id e g s
  run_prompted definition prompt run_id tracing model server s (g, other_error e) = escaped e g s
  run_prompted definition prompt run_id tracing model server s (g, fetch_cancelled) =
      cancelled_at [] g s

  abbrev pub run_served :
      AgentDefinition
      → Option String
      → String
      → Result SpanContext
      → Model
      → G
      → S
      → Result Server
      → Run G S
  run_served definition prompt run_id tracing model g s (raised e) = escaped e g s
  run_served definition prompt run_id tracing model g s (returned server) =
      run_prompted definition prompt run_id tracing model server s
        (resolve_system_prompt definition g)

  abbrev pub run_modelled :
      AgentDefinition → Option String → String → Result SpanContext → G → S → Result Model → Run G S
  run_modelled definition prompt run_id tracing g s (raised e) = escaped e g s
  run_modelled definition prompt run_id tracing g s (returned model) =
      run_served definition prompt run_id tracing model g s
        (mcp_server_factory config.mcp.base_url config.mcp.bearer_token)

  -- `AgentRunner.run`: `run_id` is the fresh uuid4, and `tracing` what the tracer gives: the
  -- context of the span that it started, or an exception.
  unfoldable pub run :
      AgentDefinition → Option String → String → Result SpanContext → G → S → Run G S
  unfolding session_of report_run resolve_system_prompt spec_of
  run definition prompt run_id tracing g s = run_modelled definition prompt run_id tracing g s (
      model_factory config.ollama.base_url
        (model_name definition.model config.ollama.default_model))
