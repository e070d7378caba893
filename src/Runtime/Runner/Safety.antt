-- ===== src/Runtime/Runner/Safety.antt =====
-- Which tools a run can call.
use saga_agents.Common.{
  String, ◌≡◌, sym, ◌∙◌, arith, Bool, true, false, not, ◌&&◌, List, [], ◌∷◌, Option, none, contains,
  All,
}
use saga_agents.Common.Result.{Result, returned, raised}
use saga_agents.Config.Models.{AgentDefinition, proposal, autonomous}
use saga_agents.Runtime.Toolset.{visible_tool_names_iff, filtered_server}
use saga_agents.Runtime.Session.{AgentCall, mcp, propose, IsOffered, failing, outcome_of}
use saga_agents.Runtime.Runner.{AgentRunner, SpanContext, spec_of, session_of, report_run, run}
use saga_agents.Runtime.Runner.Cases.{report_outcome-calls, run-Closed}

-- A call that the definition permits: of an allowed tool, in proposal mode no write tool; and of
-- `propose` in proposal mode alone.
abbrev pub permitted : AgentDefinition → AgentCall → Bool
permitted definition (mcp name arguments) =
    contains name definition.tools.allow && elim definition.autonomy [
      | autonomous ↦ true
      | proposal ↦ not (contains name definition.tools.write)
    ]
permitted definition (propose action arguments rationale) = elim definition.autonomy [
  | autonomous ↦ false
  | proposal ↦ true
]

module _ {Model Server G S : Type 0} (runner : AgentRunner Model Server G S) where
  permitted_offered :
      (definition : AgentDefinition) (prompt : Option String) (model : Model) (server : Server)
      (instructions : String) (call : AgentCall)
      → IsOffered (spec_of runner definition prompt model server instructions) call
      → permitted definition call ≡ true
  unfolding spec_of filtered_server
  permitted_offered definition prompt model server instructions (mcp name arguments) h =
      sym (visible_tool_names_iff definition.tools definition.autonomy name) ∙ h
  permitted_offered definition prompt model server instructions (propose action arguments rationale)
        h =
      ground arith

  All-permitted :
      (definition : AgentDefinition) (prompt : Option String) (model : Model) (server : Server)
      (instructions : String) (calls : List AgentCall)
      → All (IsOffered (spec_of runner definition prompt model server instructions)) calls
      → All (λ call. permitted definition call ≡ true) calls
  All-permitted definition prompt model server instructions [] h = tt
  All-permitted definition prompt model server instructions (call ∷ calls) (h, hs) = (
    permitted_offered definition prompt model server instructions call h,
    All-permitted definition prompt model server instructions calls hs,
  )

  session_permitted :
      (definition : AgentDefinition) (prompt : Option String) (run_id : String)
      (tracing : Result SpanContext) (model : Model) (server : Server) (instructions : String)
      (g : G) (s : S)
      → All
          (λ call. permitted definition call ≡ true)
          (report_run runner definition run_id
            (session_of runner (spec_of runner definition prompt model server instructions) tracing)
            g
            s).calls
  unfolding report_run session_of
  session_permitted definition prompt run_id (raised e) model server instructions g s =
      rw
        (report_outcome-calls runner definition run_id [] none g s
          (outcome_of runner.show definition.limits.timeout_seconds (failing e)))
        tt
  session_permitted definition prompt run_id (returned context) model server instructions g s =
      let spec = spec_of runner definition prompt model server instructions in
      rw
        (report_outcome-calls runner definition run_id (runner.agents.run spec).calls _ g s (
          outcome_of runner.show definition.limits.timeout_seconds (runner.agents.run spec).ending))
        (All-permitted definition prompt model server instructions _ (runner.agents.offered spec))

  -- Whichever of the offered tools the model calls, every call in a run is one that the definition permits: the tool is in
  -- `tools.allow`; in proposal mode it is not in `tools.write`; and `propose` is called in proposal
  -- mode alone.
  pub run_permitted :
      (definition : AgentDefinition) (prompt : Option String) (run_id : String)
      (tracing : Result SpanContext) (g : G) (s : S)
      → All
          (λ call. permitted definition call ≡ true)
          (run runner definition prompt run_id tracing g s).calls
  run_permitted definition prompt run_id tracing g s =
      run-Closed runner (λ x. All (λ call. permitted definition call ≡ true) x.calls) definition
        prompt run_id tracing s
        (record {
          on_escape = λ e g. tt;
          on_cancel = λ g. tt;
          on_guidance = λ e g. tt;
          on_session = λ model server instructions g.
              session_permitted definition prompt run_id tracing model server instructions g s;
        })
        g
