-- ===== src/App/Recording/Approved.antt =====
-- What an agent proposes in a run is what an approval of it does.
use mathlib.Core.Option
use saga_agents.Common.{
  ℕ, ◌++◌, ◌+◌, ◌≤◌, String, eq_iff, ◌≡◌, ◌∙◌, refl, sym, ap, List, [], ◌∷◌, Option, none, some,
  get_elem?, inl, inr,
}
use saga_agents.Common.Result.{Result, returned, Awaited, completes}
use saga_agents.Config.Models.{AgentDefinition, Autonomy, proposal}
use saga_agents.Proposals.Database.{Database, Codec}
use saga_agents.Proposals.Store.{Store, pending, new_record, get}
use saga_agents.Proposals.Store.Readable.{IsReadable}
use saga_agents.Proposals.Store.Updates.{decided, add-IsReadable}
use saga_agents.Common.Json.{Json}
use saga_agents.Triggers.Api.{ToolCall, approve_proposal}
use saga_agents.Triggers.Api.Approval.{
  call_of, bearer, outcome_status, outcome_error, approve_pending,
}
use saga_agents.Runtime.Session.{proposals_of}
use saga_agents.Runtime.Report.{ProposedAction, RunReport}
use saga_agents.Runtime.Runner.{AgentRunner, SpanContext, run}
use saga_agents.Runtime.Runner.Reports.{offer, offer_each, run-Reported}
use saga_agents.App.Recording.{Recorder, made, store_sink, recorded}

module _ (database : Database) (codec : Codec) (ids : ℕ → String) (clock : ℕ → ℕ) where
  open database use {Db}

  offer-wired :
      (autonomy : Autonomy)
      (sink : Option
        (String → String → ProposedAction → Recorder Db → Recorder Db × Awaited (Unit {0})))
      (agent_id run_id : String) (ps : List ProposedAction) (s : Recorder Db)
      → sink ≡ some (store_sink database codec ids clock)
      → autonomy ≡ proposal
      → offer autonomy (Option.map (λ add. add agent_id run_id) sink) ps s
        ≡ offer_each (store_sink database codec ids clock agent_id run_id) ps s
  offer-wired autonomy sink agent_id run_id ps s wired mode = rw (wired, mode) refl

  -- Each proposal of a report is in the store, as the run made it.
  run-recorded :
      {Model Server G : Type 0} (runner : AgentRunner Model Server G (Recorder Db))
      (definition : AgentDefinition) (prompt : Option String) (run_id : String)
      (tracing : Result SpanContext) (g : G) (s : Recorder Db) (report : RunReport) (k : ℕ)
      (p : ProposedAction)
      → ((m n : ℕ) → ids m ≡ ids n → m ≡ n)
      → ((n : ℕ) → s.added ≤ n → get database codec (ids n) s.store ≡ returned none)
      → runner.proposal_sink ≡ some (store_sink database codec ids clock)
      → definition.autonomy ≡ proposal
      → (run runner definition prompt run_id tracing g s).result ≡ completes report
      → get_elem? report.proposals k ≡ some p
      → get database codec
          (ids (s.added + k))
          (run runner definition prompt run_id tracing g s).sink.store
        ≡ returned (some (made database codec ids clock definition.id run_id p (s.added + k)))
  run-recorded runner definition prompt run_id tracing g s report k p unique fresh wired mode
        returns at =
      elim (run-Reported runner definition prompt run_id tracing g s) [
        | inl (report', e, faithful) ↦
            let same : report' ≡ report = cc (e, returns) in
            let offered =
              faithful.offered
              ∙ offer-wired definition.autonomy runner.proposal_sink definition.id run_id _ s wired
                  mode in
            let listed =
              ap (λ x. get_elem? x k) (sym faithful.same_proposals ∙ ap (λ x. x.proposals) same)
              ∙ at in
            ap (λ x. get database codec (ids (s.added + k)) x.store) offered
            ∙ recorded database codec ids clock unique definition.id run_id _ s fresh k
                (s.added + k) p listed refl
        | inr (inl (e, raises, nothing, unchanged)) ↦ cc (raises, returns)
        | inr (inr (stops, interrupted)) ↦ cc (stops, returns)
      ]

  offer_each-IsReadable :
      (agent_id run_id : String) (ps : List ProposedAction) (s : Recorder Db)
      → IsReadable database codec s.store
      → IsReadable database codec
          (offer_each (store_sink database codec ids clock agent_id run_id) ps s).store
  unfolding store_sink
  offer_each-IsReadable agent_id run_id [] s readable = readable
  offer_each-IsReadable agent_id run_id (p ∷ ps) s readable =
      offer_each-IsReadable agent_id run_id ps _ (
        add-IsReadable database codec (made database codec ids clock agent_id run_id p s.added)
          s.store readable)

  run-IsReadable :
      {Model Server G : Type 0} (runner : AgentRunner Model Server G (Recorder Db))
      (definition : AgentDefinition) (prompt : Option String) (run_id : String)
      (tracing : Result SpanContext) (g : G) (s : Recorder Db)
      → IsReadable database codec s.store
      → runner.proposal_sink ≡ some (store_sink database codec ids clock)
      → definition.autonomy ≡ proposal
      → IsReadable database codec (run runner definition prompt run_id tracing g s).sink.store
  run-IsReadable runner definition prompt run_id tracing g s readable wired mode =
      elim (run-Reported runner definition prompt run_id tracing g s) [
        | inl (report, e, faithful) ↦
            let offered =
              faithful.offered
              ∙ offer-wired definition.autonomy runner.proposal_sink definition.id run_id _ s wired
                  mode in
            rw offered (
              offer_each-IsReadable definition.id run_id
                (proposals_of (run runner definition prompt run_id tracing g s).calls) s readable)
        | inr (inl (e, raises, nothing, unchanged)) ↦ rw unchanged readable
        | inr (inr (stops, interrupted)) ↦
            let offered =
              interrupted.offered
              ∙ offer-wired definition.autonomy runner.proposal_sink definition.id run_id _ s wired
                  mode in
            rw offered (offer_each-IsReadable definition.id run_id interrupted.before s readable)
      ]

  call-made :
      (agent_id run_id : String) (p : ProposedAction) (n : ℕ)
      → (call_of (made database codec ids clock agent_id run_id p n)
          ≡ record { action = p.action; arguments = p.arguments })
        × ((made database codec ids clock agent_id run_id p n).status ≡ pending)
  unfolding new_record
  call-made agent_id run_id p n = (refl, refl)

  module _ {Model Server G Value : Type 0} (runner : AgentRunner Model Server G (Recorder Db))
      (definition : AgentDefinition) (prompt : Option String) (run_id : String)
      (tracing : Result SpanContext) (g : G) (s : Recorder Db) (encode : Value → Result Json)
      (show : Value → String) (token : String) (call : ToolCall → Result Value)
      (calls : List ToolCall) where
    -- From the run of an agent to the approval, over the whole chain of runner, sink, store and API.
    -- The runner's sink is the store, the agent is in proposal mode, the run returned this report and
    -- `p` is its proposal at place `k`; the ids that uuid4 gives are different, none of those to come
    -- is in the store, and every row can be read. Then approving the id of that proposal makes one
    -- tool call, that of `p`'s action and arguments; and the proposal is then in the store as the
    -- agent's, of that run, with `p`'s rationale, decided by the outcome of the call.
    pub run-approved :
        (report : RunReport) (k : ℕ) (p : ProposedAction)
        → ((m n : ℕ) → ids m ≡ ids n → m ≡ n)
        → ((n : ℕ) → s.added ≤ n → get database codec (ids n) s.store ≡ returned none)
        → IsReadable database codec s.store
        → runner.proposal_sink ≡ some (store_sink database codec ids clock)
        → definition.autonomy ≡ proposal
        → (run runner definition prompt run_id tracing g s).result ≡ completes report
        → get_elem? report.proposals k ≡ some p
        → let id = ids (s.added + k) in
          let asked : ToolCall = record { action = p.action; arguments = p.arguments } in
          let stored = (run runner definition prompt run_id tracing g s).sink.store in
          (s' : Store Db) × ((approve_proposal database codec encode show token
              (some call)
              (bearer token)
              id
              (record { store = some stored; calls = calls })).0
            ≡ record { store = some s'; calls = calls ++ asked ∷ [] })
          × (get database codec id s'
              ≡ returned (
                  some (
                    decided
                      (outcome_status (call asked))
                      (outcome_error (call asked))
                      (made database codec ids clock definition.id run_id p (s.added + k)))))
    run-approved report k p unique fresh readable wired mode returns at =
        let id = ids (s.added + k) in
        let r = made database codec ids clock definition.id run_id p (s.added + k) in
        let (same_call, waits) = call-made definition.id run_id p (s.added + k) in
        let found =
          run-recorded runner definition prompt run_id tracing g s report k p unique fresh wired
            mode returns at in
        let (s', approved, decision) =
          approve_pending database codec encode show token id call _ calls r
            (run-IsReadable runner definition prompt run_id tracing g s readable wired mode) found
            waits in
        (
          s',
          approved ∙ rw same_call refl,
          decision.found id ∙ rw ((eq_iff id id).1 refl, same_call) refl,
        )
