-- ===== src/Triggers/Api/History/Transitions.antt =====
-- The counter AGENT_PROPOSALS over a sequence of requests.
use saga_agents.Common.{
  String, ◌==◌, ◌≡◌, ◌∙◌, refl, ap, Bool, true, List, [], ◌∷◌, ◌++◌, Option, none, some, arith,
  length, length-concat, tally, tally-concat, one_if, ◌||◌,
}
use saga_agents.Common.Json.{Json}
use saga_agents.Common.Result.{Result, returned, raised}
use saga_agents.Proposals.Database.{Database, Codec}
use saga_agents.Proposals.Store.{rejected, ProposalRecord, Store, status_text, get, set_status}
use saga_agents.Proposals.Store.Updates.{add-transitions, transitions-set_status}
use saga_agents.Triggers.Api.{ToolCall, Api, apply_proposal}
use saga_agents.Triggers.Api.Approval.{outcome_status, outcome_error}
use saga_agents.Proposals.Store.Readable.{found-row}
use saga_agents.Triggers.Api.History.{Request, serve, Kept, serve-Kept, store_of}

-- The increments of AGENT_PROPOSALS that an approval makes.
abbrev pub is_applied : String → Bool
is_applied state = state == "applied" || state == "failed"

module _ (database : Database) (codec : Codec) {Value : Type 0} (encode : Value → Result Json)
    (show : Value → String) (token : String) where
  open database use {Db, find}

  abbrev pub Counts : Store Db → List ToolCall → Type 0
  Counts s calls = tally is_applied s.transitions ≡ length calls

  outcome-is_applied : (o : Result Value) → is_applied (status_text (outcome_status o)) ≡ true
  outcome-is_applied (returned v) = refl
  outcome-is_applied (raised e) = refl

  transitions-found :
      (id status : String) (error : Option String) (s : Store Db) (r : ProposalRecord)
      → get database codec id s ≡ returned (some r)
      → (set_status database id status error s).transitions ≡ s.transitions ++ status ∷ []
  transitions-found id status error s r e =
      transitions-set_status database codec id status error s
      ∙ rw (found-row database codec id s r e)

  Counts-Kept : Kept database codec encode show token Counts
  Counts-Kept = record {
    approval = λ id r o s calls e waits p.
        let status = status_text (outcome_status o) in
        ap (tally is_applied) (transitions-found id status (outcome_error o) s r e)
        ∙ omega (
          arith,
          p,
          tally-concat is_applied s.transitions status,
          ap one_if (outcome-is_applied o),
          length-concat calls (apply_proposal r),
        );
    rejection = λ id r s calls e waits p.
        ap (tally is_applied) (transitions-found id (status_text rejected) none s r e)
        ∙ omega (arith, p, tally-concat is_applied s.transitions (status_text rejected));
    addition = λ r s calls p. ap (tally is_applied) (add-transitions database codec r s) ∙ p;
  }

  -- In any such sequence of requests, AGENT_PROPOSALS counts one `applied` or `failed` for each tool
  -- call that the approvals have made, if it did so before; a rejection and an addition count neither.
  pub serve-Counts :
      (es : List (Request Value)) (s : Store Db) (calls : List ToolCall)
      → tally is_applied s.transitions ≡ length calls
      → (s' : Store Db) × ((serve database codec encode show token es
            (record { store = some s; calls = calls })).store
          ≡ some s')
        × (tally is_applied s'.transitions
            ≡ length
                (serve database codec encode show token es
                  (record { store = some s; calls = calls })).calls)
  serve-Counts es s calls same =
      let a : Api Db =
        serve database codec encode show token es (record { store = some s; calls = calls }) in
      store_of database codec encode show token Counts a.store a.calls (
        serve-Kept database codec encode show token Counts-Kept es
          (record { store = some s; calls = calls }) same)
