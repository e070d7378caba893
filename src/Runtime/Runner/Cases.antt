-- ===== src/Runtime/Runner/Cases.antt =====
-- The ways a run can go: what holds of each of them holds of the run.
use saga_agents.Common.{String, ◌≡◌, refl, List, [], Option, none, some}
use saga_agents.Common.Result.{Result, returned, raised}
use saga_agents.Config.Models.{AgentDefinition}
use saga_agents.Runtime.Guidance.{Fetched, fetched, fetch_error, other_error, fetch_cancelled}
use saga_agents.Runtime.Session.{AgentCall, Outcome}
use saga_agents.Runtime.Runner.{
  AgentRunner, SpanContext, Run, resolve_system_prompt, spec_of, session_of, report_of,
  report_outcome, report_run, Persisted, persisted, stopped, escaped, cancelled_at, guidance_failed,
  run_built, run_prompted, run_served, run_modelled, run, model_name,
}

module _ {Model Server G S : Type 0} (runner : AgentRunner Model Server G S) where
  -- It raises or is cancelled before the agent is built, the guidance fails, or the agent runs.
  pub record Closed (P : Run G S → Type 0) (definition : AgentDefinition) (prompt : Option String)
      (run_id : String) (tracing : Result SpanContext) (s : S) : Type 0 where
    pub on_escape : (e : String) (g : G) → P (escaped runner e g s)
    pub on_cancel : (g : G) → P (cancelled_at runner [] g s)
    pub on_guidance : (e : String) (g : G) → P (guidance_failed runner definition run_id e g s)
    pub on_session :
        (model : Model) (server : Server) (instructions : String) (g : G)
        → P (
            report_run runner definition run_id
              (session_of runner
                (spec_of runner definition prompt model server instructions)
                tracing)
              g
              s)

  report_of-calls :
      (definition : AgentDefinition) (run_id : String) (calls : List AgentCall)
      (trace_id : Option String) (g : G) (o : Outcome) (x : S × Persisted)
      → (report_of runner definition run_id calls trace_id g o x).calls ≡ calls
  report_of-calls definition run_id calls trace_id g o (s, persisted e) = refl
  report_of-calls definition run_id calls trace_id g o (s, stopped) = refl

  pub report_outcome-calls :
      (definition : AgentDefinition) (run_id : String) (calls : List AgentCall)
      (trace_id : Option String) (g : G) (s : S) (o : Option Outcome)
      → (report_outcome runner definition run_id calls trace_id g s o).calls ≡ calls
  report_outcome-calls definition run_id calls trace_id g s none = refl
  report_outcome-calls definition run_id calls trace_id g s (some o) =
      report_of-calls definition run_id calls trace_id g o _

  module _ (P : Run G S → Type 0) (definition : AgentDefinition) (prompt : Option String)
      (run_id : String) (tracing : Result SpanContext) (s : S)
      (closed : Closed P definition prompt run_id tracing s) where
    built :
        (model : Model) (server : Server) (instructions : String) (g : G) (r : Result (Unit {0}))
        → P (
            run_built runner definition run_id
              (spec_of runner definition prompt model server instructions)
              tracing
              g
              s
              r)
    built model server instructions g (raised e) = closed.on_escape e g
    built model server instructions g (returned done) =
        closed.on_session model server instructions g

    prompted :
        (model : Model) (server : Server) (r : G × Fetched String)
        → P (run_prompted runner definition prompt run_id tracing model server s r)
    prompted model server (g, fetched instructions) =
        built model server instructions g
          (runner.agents.build (spec_of runner definition prompt model server instructions))
    prompted model server (g, fetch_error e) = closed.on_guidance e g
    prompted model server (g, other_error e) = closed.on_escape e g
    prompted model server (g, fetch_cancelled) = closed.on_cancel g

    served :
        (model : Model) (g : G) (r : Result Server)
        → P (run_served runner definition prompt run_id tracing model g s r)
    served model g (raised e) = closed.on_escape e g
    served model g (returned server) =
        prompted model server (resolve_system_prompt runner definition g)

    modelled :
        (g : G) (r : Result Model) → P (run_modelled runner definition prompt run_id tracing g s r)
    modelled g (raised e) = closed.on_escape e g
    modelled g (returned model) =
        served model g
          (runner.mcp_server_factory runner.config.mcp.base_url runner.config.mcp.bearer_token)

    pub run-Closed : (g : G) → P (run runner definition prompt run_id tracing g s)
    unfolding run
    run-Closed g = modelled g (
        runner.model_factory runner.config.ollama.base_url
          (model_name definition.model runner.config.ollama.default_model))
