-- ===== src/Runtime/Runner/Reports.antt =====
-- What the report of a run says, and what the sink is given.
use mathlib.Core.Option
use saga_agents.Common.{
  ℕ, String, ◌≡◌, ◌↔◌, ◌⊎◌, inl, inr, refl, sym, List, [], ◌∷◌, ◌++◌, ap, Option, none, some,
}
use saga_agents.Common.Result.{Result, Awaited, completes, fails, is_cancelled, Awaited-cases}
use saga_agents.Config.Models.{AgentDefinition, Autonomy, proposal, autonomous}
use saga_agents.Runtime.Report.{ok, ProposedAction, RunReport}
use saga_agents.Runtime.Session.{
  AgentCall, Outcome, Session, Ending, interrupted, finished, limit_reached, timed_out, failing,
  outcome_of, proposals_of,
}
use saga_agents.Runtime.Runner.{
  AgentRunner, SpanContext, Run, persist, persist_if, spec_of, session_of, report_of,
  report_outcome, report_run, cancelled_at, Persisted, persisted, stopped, guidance_failed, run,
}
use saga_agents.Runtime.Runner.Cases.{run-Closed}

-- Every proposal is offered once, in order, whatever the sink answers.
abbrev pub offer_each :
    {S : Type 0} → (ProposedAction → S → S × Awaited (Unit {0})) → List ProposedAction → S → S
offer_each add [] s = s
offer_each add (p ∷ ps) s = offer_each add ps (add p s).0

abbrev pub offer :
    {S : Type 0}
    → Autonomy
    → Option (ProposedAction → S → S × Awaited (Unit {0}))
    → List ProposedAction
    → S
    → S
offer proposal (some add) ps s = offer_each add ps s
offer autonomy sink ps s = s

-- A loop that a cancellation stopped has offered a beginning of the proposals; any other, all.
abbrev Persists :
    {S : Type 0} → (List ProposedAction → S) → List ProposedAction → S × Persisted → Type 0
Persists offered ps x =
    ((e : Option String) × (x.1 ≡ persisted e) × (x.0 ≡ offered ps))
    ⊎ ((before rest : List ProposedAction) × (x.1 ≡ stopped)
        × (ps ≡ before ++ rest)
        × (x.0 ≡ offered before))

Persists-cons :
    {S : Type 0} (add : ProposedAction → S → S × Awaited (Unit {0})) (p : ProposedAction)
    (ps : List ProposedAction) (s : S) (x : S × Persisted)
    → Persists (λ xs. offer_each add xs (add p s).0) ps x
    → Persists (λ xs. offer_each add xs s) (p ∷ ps) x
Persists-cons add p ps s x (inl (e, all, same)) = inl (e, all, same)
Persists-cons add p ps s x (inr (before, rest, ends, split, same)) =
    inr (p ∷ before, rest, ends, ap (λ xs. p ∷ xs) split, same)

persist-Persists :
    {S : Type 0} (add : ProposedAction → S → S × Awaited (Unit {0})) (ps : List ProposedAction)
    (last : Option String) (s : S)
    → Persists (λ xs. offer_each add xs s) ps (persist add ps last s)
unfolding persist
persist-Persists add [] last s = inl (last, refl, refl)
persist-Persists add (p ∷ ps) last s = elim (Awaited-cases (add p s).1) [
  | inl (done, e) ↦
      rw (e, persist) (Persists-cons add p ps s _ (persist-Persists add ps last (add p s).0))
  | inr (inl (x, e)) ↦
      rw (e, persist) (Persists-cons add p ps s _ (persist-Persists add ps (some x) (add p s).0))
  | inr (inr e) ↦ rw (e, persist) (inr (p ∷ [], ps, refl, refl, refl))
]

persist_if-Persists :
    {S : Type 0} (autonomy : Autonomy) (sink : Option (ProposedAction → S → S × Awaited (Unit {0})))
    (ps : List ProposedAction) (s : S)
    → Persists (λ xs. offer autonomy sink xs s) ps (persist_if autonomy sink ps s)
unfolding persist_if
persist_if-Persists proposal none ps s = inl (none, refl, refl)
persist_if-Persists proposal (some add) ps s = persist-Persists add ps none s
persist_if-Persists autonomous sink ps s = inl (none, refl, refl)

abbrev IsConsistent : Option Outcome → Type 0
IsConsistent none = Unit {0}
IsConsistent (some o) = (o.error ≡ none) ↔ (o.status ≡ ok)

outcome_of-IsConsistent :
    (show : ℕ → String) (seconds : ℕ) (ending : Ending)
    → IsConsistent (outcome_of show seconds ending)
unfolding outcome_of
outcome_of-IsConsistent show seconds (finished output messages) = (λ h. refl, λ h. refl)
outcome_of-IsConsistent show seconds (limit_reached x) = (λ h. cc, λ h. cc)
outcome_of-IsConsistent show seconds timed_out = (λ h. cc, λ h. cc)
outcome_of-IsConsistent show seconds (failing x) = (λ h. cc, λ h. cc)
outcome_of-IsConsistent show seconds interrupted = tt

module _ {Model Server G S : Type 0} (runner : AgentRunner Model Server G S) where
  -- The report is of this run: its ids, the proposals made in it, an error exactly where its status
  -- is not ok; and the sink was offered these proposals.
  pub record Faithful (definition : AgentDefinition) (run_id : String) (s : S) (x : Run G S)
      (report : RunReport) : Type 0 where
    pub same_run : report.run_id ≡ run_id
    pub same_agent : report.agent_id ≡ definition.id
    pub same_proposals : report.proposals ≡ proposals_of x.calls
    pub errors : (report.error ≡ none) ↔ (report.status ≡ ok)
    pub offered :
        x.sink
        ≡ offer definition.autonomy
            (Option.map (λ add. add definition.id run_id) runner.proposal_sink)
            (proposals_of x.calls)
            s

  -- Where the run is cancelled, the sink was offered a beginning of the proposals.
  pub record Interrupted (definition : AgentDefinition) (run_id : String) (s : S) (x : Run G S)
      : Type 0 where
    pub before : List ProposedAction
    pub rest : List ProposedAction
    pub split : proposals_of x.calls ≡ before ++ rest
    pub offered :
        x.sink
        ≡ offer definition.autonomy
            (Option.map (λ add. add definition.id run_id) runner.proposal_sink)
            before
            s

  -- A report; or an exception, and the run called nothing and offered nothing; or a cancellation.
  abbrev pub Reported : AgentDefinition → String → S → Run G S → Type 0
  Reported definition run_id s x =
      ((report : RunReport) × (x.result ≡ completes report) × Faithful definition run_id s x report)
      ⊎ (((e : String) × (x.result ≡ fails e) × (x.calls ≡ []) × (x.sink ≡ s))
          ⊎ ((x.result ≡ is_cancelled) × Interrupted definition run_id s x))

  offer-nil :
      (autonomy : Autonomy) (sink : Option (ProposedAction → S → S × Awaited (Unit {0}))) (s : S)
      → offer autonomy sink [] s ≡ s
  offer-nil proposal none s = refl
  offer-nil proposal (some add) s = refl
  offer-nil autonomous sink s = refl

  failed_Faithful :
      (definition : AgentDefinition) (run_id e : String) (g : G) (s : S)
      → Reported definition run_id s (guidance_failed runner definition run_id e g s)
  unfolding proposals_of
  failed_Faithful definition run_id e g s = inl (
    _,
    refl,
    record {
      same_run = refl;
      same_agent = refl;
      same_proposals = refl;
      errors = (λ h. cc, λ h. cc);
      offered = sym (offer-nil definition.autonomy _ s);
    },
  )

  cancelled-Reported :
      (definition : AgentDefinition) (run_id : String) (calls : List AgentCall) (g : G) (s : S)
      → Reported definition run_id s (cancelled_at runner calls g s)
  cancelled-Reported definition run_id calls g s = inr (
      inr (
        refl,
        record {
          before = [];
          rest = proposals_of calls;
          split = refl;
          offered = sym (offer-nil definition.autonomy _ s);
        },
      ))

  report_of-Reported :
      (definition : AgentDefinition) (run_id : String) (calls : List AgentCall)
      (trace_id : Option String) (g : G) (s : S) (o : Outcome) (x : S × Persisted)
      → ((o.error ≡ none) ↔ (o.status ≡ ok))
      → Persists
          (λ ps.
            offer definition.autonomy
              (Option.map (λ add. add definition.id run_id) runner.proposal_sink)
              ps
              s)
          (proposals_of calls)
          x
      → Reported definition run_id s (report_of runner definition run_id calls trace_id g o x)
  report_of-Reported definition run_id calls trace_id g s o (s', persisted e) errors
        (inl (e', same, offered)) =
      inl (
        _,
        refl,
        record {
          same_run = refl;
          same_agent = refl;
          same_proposals = refl;
          errors = errors;
          offered = offered;
        },
      )
  report_of-Reported definition run_id calls trace_id g s o (s', persisted e) errors
        (inr (before, rest, same, split, offered)) =
      cc
  report_of-Reported definition run_id calls trace_id g s o (s', stopped) errors
        (inl (e', same, offered)) =
      cc
  report_of-Reported definition run_id calls trace_id g s o (s', stopped) errors
        (inr (before, rest, same, split, offered)) =
      inr (inr (refl, record { before = before; rest = rest; split = split; offered = offered }))

  outcome-Reported :
      (definition : AgentDefinition) (run_id : String) (calls : List AgentCall)
      (trace_id : Option String) (g : G) (s : S) (o : Option Outcome)
      → IsConsistent o
      → Reported definition run_id s (report_outcome runner definition run_id calls trace_id g s o)
  outcome-Reported definition run_id calls trace_id g s none errors =
      cancelled-Reported definition run_id calls g s
  outcome-Reported definition run_id calls trace_id g s (some o) errors =
      report_of-Reported definition run_id calls trace_id g s o _ errors
        (persist_if-Persists definition.autonomy _ (proposals_of calls) s)

  session-Reported :
      (definition : AgentDefinition) (run_id : String) (ran : Session × Option String) (g : G)
      (s : S)
      → Reported definition run_id s (report_run runner definition run_id ran g s)
  unfolding report_run
  session-Reported definition run_id (session, trace_id) g s =
      outcome-Reported definition run_id session.calls trace_id g s _
        (outcome_of-IsConsistent runner.show definition.limits.timeout_seconds session.ending)

  -- A run returns a report of itself; or an Exception leaves it before the agent runs; or it is
  -- cancelled, at whichever await. The report carries the run's ids and the proposals made in it, in
  -- order, and an error exactly where its status is not ok. In proposal mode, and otherwise never,
  -- the sink was offered the proposals of a run that returned, each once and in order, whatever it
  -- answered; of a cancelled run, only the first of them, or none.
  pub run-Reported :
      (definition : AgentDefinition) (prompt : Option String) (run_id : String)
      (tracing : Result SpanContext) (g : G) (s : S)
      → Reported definition run_id s (run runner definition prompt run_id tracing g s)
  run-Reported definition prompt run_id tracing g s =
      run-Closed runner (Reported definition run_id s) definition prompt run_id tracing s
        (record {
          on_escape = λ e g. inr (inl (e, refl, refl, refl));
          on_cancel = λ g. cancelled-Reported definition run_id [] g s;
          on_guidance = λ e g. failed_Faithful definition run_id e g s;
          on_session = λ model server instructions g.
              session-Reported definition run_id
                (session_of runner (spec_of runner definition prompt model server instructions)
                  tracing)
                g s;
        })
        g
