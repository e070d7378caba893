-- ===== src/App/Recording.antt =====
-- The proposal store as the sink of the runner, as `build_service` of src/saga_agents/app.py wires them:
-- what a run proposes is in the store, pending, for the API to approve.
pub mod Approved
mod Tests
use mathlib.Core.Option
use saga_agents.Common.{
  ℕ, ◌++◌, zero, suc, ◌+◌, ◌≤◌, String, ◌==◌, eq_iff, ◌≡◌, ◌∙◌, refl, sym, ap, arith, false, List,
  [], ◌∷◌, Option, none, some, get_elem?, Bool-cases, inl, inr, if◌then◌else◌,
}
use saga_agents.Common.Result.{Result, returned, raised, Awaited, completes, fails}
use saga_agents.Config.Models.{AgentDefinition, Autonomy, proposal}
use saga_agents.Proposals.Database.{Database, Codec}
use saga_agents.Proposals.Store.{ProposalRecord, Store, pending, new_record, get, add}
use saga_agents.Proposals.Store.Readable.{add_total, get-add, get-add_kept, absent_of_get}
use saga_agents.Proposals.Store.Readable.{IsReadable}
use saga_agents.Proposals.Store.Updates.{decided, add-IsReadable}
use saga_agents.Common.Json.{Json}
use saga_agents.Triggers.Api.{ToolCall, approve_proposal}
use saga_agents.Triggers.Api.Approval.{
  call_of, bearer, outcome_status, outcome_error, approve_pending,
}
use saga_agents.Runtime.Session.{proposals_of}
use saga_agents.Runtime.Report.{ProposedAction, RunReport}
use saga_agents.Runtime.Runner.{AgentRunner, SpanContext, run}
use saga_agents.Runtime.Runner.Reports.{offer, offer_each, run-Reported}

-- The store, and how many calls of `add` it has had.
pub record Recorder (Db : Type 0) : Type 0 where
  pub store : Store Db
  pub added : ℕ

-- What the runner sees of a call of `add` that is not cancelled.
abbrev pub done : {A : Type 0} → Result A → Awaited (Unit {0})
done (returned a) = completes tt
done (raised e) = fails e

-- `ids n` and `clock n` are what uuid4 and the clock give to call `n` of `add`.
module _ (database : Database) (codec : Codec) (ids : ℕ → String) (clock : ℕ → ℕ) where
  open database use {Db}

  abbrev pub made : String → String → ProposedAction → ℕ → ProposalRecord
  made agent_id run_id p n =
      new_record (ids n) (clock n) agent_id run_id p.action p.arguments p.rationale

  -- SqliteProposalStore.add, with the record that it makes
  unfoldable pub store_sink :
      String → String → ProposedAction → Recorder Db → Recorder Db × Awaited (Unit {0})
  store_sink agent_id run_id p s =
      let (store, result) = add database codec (made agent_id run_id p s.added) s.store in
      (record { store = store; added = s.added + 1 }, done result)

  module _ (unique : (m n : ℕ) → ids m ≡ ids n → m ≡ n) (agent_id run_id : String) where
    id-made : (p : ProposedAction) (n : ℕ) → (made agent_id run_id p n).id ≡ ids n
    unfolding new_record
    id-made p n = refl

    -- No proposal in the store has an id that is still to come.
    abbrev pub Fresh : Recorder Db → Type 0
    Fresh s = (n : ℕ) → s.added ≤ n → get database codec (ids n) s.store ≡ returned none

    -- What is in the store after a proposal with a new id.
    get-added :
        (p : ProposedAction) (s : Recorder Db) (id : String)
        → Fresh s
        → get database codec id (add database codec (made agent_id run_id p s.added) s.store).0 ≡ (
            if ids s.added == id
            then returned (some (made agent_id run_id p s.added))
            else get database codec id s.store)
    get-added p s id fresh =
        let r : ProposalRecord = made agent_id run_id p s.added in
        let absent =
          absent_of_get database codec (ids s.added) s.store (fresh s.added (omega arith)) in
        let (s', e) =
          (add_total database codec r s.store).0
            (ap (λ k. database.find s.store.db k) (id-made p s.added) ∙ absent) in
        ap (λ x. get database codec id x.0) e
        ∙ get-add database codec r s.store s' id e
        ∙ rw (id-made p s.added)

    get-store_sink :
        (p : ProposedAction) (s : Recorder Db)
        → Fresh s
        → get database codec (ids s.added) (store_sink agent_id run_id p s).0.store
          ≡ returned (some (made agent_id run_id p s.added))
    unfolding store_sink
    get-store_sink p s fresh =
        get-added p s (ids s.added) fresh ∙ rw ((eq_iff (ids s.added) (ids s.added)).1 refl)

    Fresh-store_sink :
        (p : ProposedAction) (s : Recorder Db) → Fresh s → Fresh (store_sink agent_id run_id p s).0
    unfolding store_sink
    Fresh-store_sink p s fresh n later =
        get-added p s (ids n) fresh ∙ elim (Bool-cases (ids s.added == ids n)) [
          | inl same ↦
              let equal = unique s.added n ((eq_iff (ids s.added) (ids n)).0 same) in
              let absurd : ⊥ = omega (arith, later, equal) in elim absurd [ ]
          | inr other ↦ rw other (fresh n (omega (arith, later)))
        ]

    added_next :
        (p : ProposedAction) (s : Recorder Db) (k n : ℕ)
        → n ≡ s.added + suc k
        → n ≡ (store_sink agent_id run_id p s).0.added + k
    unfolding store_sink
    added_next p s k n e = omega (arith, e)

    kept :
        (ps : List ProposedAction) (s : Recorder Db) (id : String) (r : ProposalRecord)
        → get database codec id s.store ≡ returned (some r)
        → get database codec id (offer_each (store_sink agent_id run_id) ps s).store
          ≡ returned (some r)
    unfolding store_sink
    kept [] s id r found = found
    kept (p ∷ ps) s id r found =
        kept ps _ id r
          (get-add_kept database codec id (made agent_id run_id p s.added) r s.store found)

    pub recorded :
        (ps : List ProposedAction) (s : Recorder Db)
        → Fresh s
        → (k n : ℕ) (p : ProposedAction) → get_elem? ps k ≡ some p
        → n ≡ s.added + k
        → get database codec (ids n) (offer_each (store_sink agent_id run_id) ps s).store
          ≡ returned (some (made agent_id run_id p n))
    recorded [] s fresh k n p at e = cc
    recorded (q ∷ ps) s fresh zero n p at e =
        let here : q ≡ p = cc in
        let now : s.added ≡ n = omega (arith, e) in
        rw (sym here, sym now)
          (kept ps _ (ids s.added) (made agent_id run_id q s.added) (get-store_sink q s fresh))
    recorded (q ∷ ps) s fresh (suc k) n p at e =
        recorded ps (store_sink agent_id run_id q s).0 (Fresh-store_sink q s fresh) k n p at
          (added_next q s k n e)
