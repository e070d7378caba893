-- ===== src/Runtime/Runner/Returns.antt =====
-- When `AgentRunner.run` of src/saga_agents/runtime/runner.py returns a report.
use mathlib.Core.Option
use saga_agents.Common.{ℕ, String, ◌≡◌, ◌≢◌, inl, inr, refl, List, [], ◌∷◌, Option, none, some}
use saga_agents.Common.Dict.{Dict}
use saga_agents.Common.Result.{
  Result, returned, raised, Awaited, completes, is_cancelled, Awaited-cases,
}
use saga_agents.Config.Models.{AgentDefinition, Autonomy, proposal, autonomous}
use saga_agents.Runtime.Report.{ProposedAction, RunReport}
use saga_agents.Runtime.Guidance.{
  referenced_keys, Fetched, fetched, fetch_error, other_error, fetch_cancelled,
}
use saga_agents.Runtime.Session.{
  AgentSpec, AgentCall, Outcome, Session, Ending, interrupted, outcome_of, proposals_of,
}
use saga_agents.Runtime.Runner.{
  AgentRunner, SpanContext, Run, substituted, persist, model_name, persist_if,
  resolve_system_prompt, spec_of, session_of, report_of, report_run, Persisted, persisted, stopped,
  run_built, run_prompted, run,
}

module _ {Model Server G S : Type 0} (runner : AgentRunner Model Server G S) where
  -- The guidance call raises nothing but GuidanceFetchError, and is not cancelled.
  abbrev IsOrdinary : {A : Type 0} → Fetched A → Type 0
  IsOrdinary (fetched a) = Unit {0}
  IsOrdinary (fetch_error e) = Unit {0}
  IsOrdinary (other_error e) = ⊥
  IsOrdinary fetch_cancelled = ⊥

  IsOrdinary-of :
      {A : Type 0} (x : Fetched A)
      → ((e : String) → x ≢ other_error e)
      → x ≢ fetch_cancelled
      → IsOrdinary x
  IsOrdinary-of (fetched a) h h' = tt
  IsOrdinary-of (fetch_error e) h h' = tt
  IsOrdinary-of (other_error e) h h' = h e refl
  IsOrdinary-of fetch_cancelled h h' = h' refl

  substituted-IsOrdinary :
      (prompt : String) (r : G × Fetched (Dict String))
      → IsOrdinary r.1
      → IsOrdinary (substituted runner prompt r).1
  substituted-IsOrdinary prompt (g, fetched guidance) h = tt
  substituted-IsOrdinary prompt (g, fetch_error x) h = tt
  substituted-IsOrdinary prompt (g, other_error x) h = elim h [ ]
  substituted-IsOrdinary prompt (g, fetch_cancelled) h = elim h [ ]

  resolve-IsOrdinary :
      (definition : AgentDefinition) (g : G)
      → IsOrdinary (runner.guidance_get g).1
      → IsOrdinary (resolve_system_prompt runner definition g).1
  unfolding resolve_system_prompt
  resolve-IsOrdinary definition g h = go (referenced_keys definition.system_prompt)
    where
      go :
          (keys : List String)
          → IsOrdinary
              (elim keys as (λ k. G × Fetched String) [
                | [] ↦ (g, fetched definition.system_prompt)
                | _ ∷ _ ↦ substituted runner definition.system_prompt (runner.guidance_get g)
              ]).1
      go [] = tt
      go (k ∷ ks) = substituted-IsOrdinary definition.system_prompt (runner.guidance_get g) h

  outcome_of-some :
      (show : ℕ → String) (seconds : ℕ) (ending : Ending)
      → ending ≢ interrupted
      → (o : Outcome) × (outcome_of show seconds ending ≡ some o)
  unfolding outcome_of
  outcome_of-some show seconds interrupted h = absurd (h refl)
  outcome_of-some show seconds _ h = (_, refl)

  persist-persisted :
      (add : ProposedAction → S → S × Awaited (Unit {0}))
      → ((p : ProposedAction) (s : S) → (add p s).1 ≢ is_cancelled)
      → (ps : List ProposedAction) (last : Option String) (s : S)
      → (e : Option String) × ((persist add ps last s).1 ≡ persisted e)
  unfolding persist
  persist-persisted add never [] last s = (last, refl)
  persist-persisted add never (p ∷ ps) last s = elim (Awaited-cases (add p s).1) [
    | inl (done, e) ↦ rw (e, persist) (persist-persisted add never ps last (add p s).0)
    | inr (inl (x, e)) ↦ rw (e, persist) (persist-persisted add never ps (some x) (add p s).0)
    | inr (inr e) ↦ absurd (never p s e)
  ]

  -- No call of the sink is cancelled.
  abbrev pub NeverCancelled :
      Option (String → String → ProposedAction → S → S × Awaited (Unit {0})) → Type 0
  NeverCancelled none = Unit {0}
  NeverCancelled (some add) =
      (agent_id run_id : String) (p : ProposedAction) (s : S)
      → (add agent_id run_id p s).1 ≢ is_cancelled

  persist_if-persisted :
      (autonomy : Autonomy) (agent_id run_id : String)
      (sink : Option (String → String → ProposedAction → S → S × Awaited (Unit {0})))
      (ps : List ProposedAction) (s : S)
      → NeverCancelled sink
      → (e : Option String) × ((persist_if autonomy
            (Option.map (λ add. add agent_id run_id) sink)
            ps
            s).1
          ≡ persisted e)
  unfolding persist_if
  persist_if-persisted proposal agent_id run_id none ps s never = (none, refl)
  persist_if-persisted proposal agent_id run_id (some add) ps s never =
      persist-persisted (add agent_id run_id) (never agent_id run_id) ps none s
  persist_if-persisted autonomous agent_id run_id sink ps s never = (none, refl)

  Completes : Run G S → Type 0
  Completes x = (report : RunReport) × (x.result ≡ completes report)

  report_of-Completes :
      (definition : AgentDefinition) (run_id : String) (calls : List AgentCall)
      (trace_id : Option String) (g : G) (o : Outcome) (x : S × Persisted) (e : Option String)
      → x.1 ≡ persisted e
      → Completes (report_of runner definition run_id calls trace_id g o x)
  unfolding Completes
  report_of-Completes definition run_id calls trace_id g o (s, persisted e') e h = (_, refl)
  report_of-Completes definition run_id calls trace_id g o (s, stopped) e h = cc

  report_run-Completes :
      (definition : AgentDefinition) (run_id : String) (session : Session)
      (trace_id : Option String) (g : G) (s : S)
      → session.ending ≢ interrupted
      → NeverCancelled runner.proposal_sink
      → Completes (report_run runner definition run_id (session, trace_id) g s)
  unfolding report_run
  report_run-Completes definition run_id session trace_id g s ends never =
      let (o, e) =
        outcome_of-some runner.show definition.limits.timeout_seconds session.ending ends in
      let (last, all) =
        persist_if-persisted definition.autonomy definition.id run_id runner.proposal_sink
          (proposals_of session.calls) s never in
      rw e (report_of-Completes definition run_id session.calls trace_id g o _ last all)

  session_ends :
      (spec : AgentSpec Model Server) (tracing : Result SpanContext)
      → (runner.agents.run spec).ending ≢ interrupted
      → (session_of runner spec tracing).0.ending ≢ interrupted
  unfolding session_of
  session_ends spec (raised e) h = λ same. cc
  session_ends spec (returned context) h = h

  module _ (definition : AgentDefinition) (prompt : Option String) (run_id : String)
      (tracing : Result SpanContext) (s : S)
      (builds : (spec : AgentSpec Model Server) → runner.agents.build spec ≡ returned tt)
      (ends : (spec : AgentSpec Model Server) → (runner.agents.run spec).ending ≢ interrupted)
      (never : NeverCancelled runner.proposal_sink) where
    built-Completes :
        (spec : AgentSpec Model Server) (g : G) (r : Result (Unit {0}))
        → r ≡ returned tt
        → Completes (run_built runner definition run_id spec tracing g s r)
    built-Completes spec g (returned done) h =
        report_run-Completes definition run_id (session_of runner spec tracing).0
          (session_of runner spec tracing).1 g s (session_ends spec tracing (ends spec)) never
    built-Completes spec g (raised e) h = cc

    prompted-Completes :
        (model : Model) (server : Server) (r : G × Fetched String)
        → IsOrdinary r.1
        → Completes (run_prompted runner definition prompt run_id tracing model server s r)
    unfolding Completes
    prompted-Completes model server (g, fetched instructions) h =
        built-Completes (spec_of runner definition prompt model server instructions) g _ (builds _)
    prompted-Completes model server (g, fetch_error e) h = (_, refl)
    prompted-Completes model server (g, other_error e) h = elim h [ ]
    prompted-Completes model server (g, fetch_cancelled) h = elim h [ ]

  -- `run` returns a report, whatever the agent, the tracer, the sink and the guidance call do, where
  -- the model factory, the MCP server factory and the construction of the agent do not raise, the
  -- guidance provider raises nothing but GuidanceFetchError, and the run is not cancelled: not at the
  -- guidance call, not at `agent.run` and at no call of the sink.
  pub run_returns :
      (definition : AgentDefinition) (prompt : Option String) (run_id : String)
      (tracing : Result SpanContext) (g : G) (s : S) (model : Model) (server : Server)
      → runner.model_factory runner.config.ollama.base_url
          (model_name definition.model runner.config.ollama.default_model)
        ≡ returned model
      → runner.mcp_server_factory runner.config.mcp.base_url runner.config.mcp.bearer_token
        ≡ returned server
      → ((e : String) → (runner.guidance_get g).1 ≢ other_error e)
      → (runner.guidance_get g).1 ≢ fetch_cancelled
      → ((spec : AgentSpec Model Server) → runner.agents.build spec ≡ returned tt)
      → ((spec : AgentSpec Model Server) → (runner.agents.run spec).ending ≢ interrupted)
      → NeverCancelled runner.proposal_sink
      → (report : RunReport) × ((run runner definition prompt run_id tracing g s).result
          ≡ completes report)
  unfolding run Completes
  run_returns definition prompt run_id tracing g s model server has_model has_server provider
        answered builds ends never =
      rw (has_model, has_server)
        (prompted-Completes definition prompt run_id tracing s builds ends never model server
          (resolve_system_prompt runner definition g)
          (resolve-IsOrdinary definition g (IsOrdinary-of _ provider answered)))
