-- ===== src/Triggers/Api/Approval.antt =====
-- Approval and rejection of a proposal, with no other request in between.
use Prim.Native.String
use saga_agents.Common.{
  String, ◌==◌, eq_iff, ◌≡◌, ◌∙◌, refl, sym, ap, true, false, List, [], ◌∷◌, ◌++◌, Option, none,
  some, arith, if◌then◌else◌, inl, inr, Bool-cases,
}
use saga_agents.Common.Json.{Json, string, object, field, end}
use saga_agents.Common.Result.{Result, returned, raised}
use saga_agents.Proposals.Database.{Database, Codec}
use saga_agents.Proposals.Store.{
  ProposalStatus, pending, applied, rejected, failed, ProposalRecord, Store, status_text, get,
  set_status,
}
use saga_agents.Proposals.Store.Readable.{IsReadable}
use saga_agents.Proposals.Store.Updates.{decided, get-set_status, set_status-IsReadable}
use saga_agents.Triggers.Api.{
  Reply, json, http_error, verify_token, ToolCall, Api, is_pending, find_pending, apply_proposal,
  after_call, after_check, approve_proposal, reject_proposal,
}

-- What the outcome of the tool call makes of the proposal.
abbrev pub outcome_status {ℓ} : {V : Type ℓ} → Result V → ProposalStatus
outcome_status (returned v) = applied
outcome_status (raised e) = failed

abbrev pub outcome_error {ℓ} : {V : Type ℓ} → Result V → Option String
outcome_error (returned v) = none
outcome_error (raised e) = some e

-- The tool call that a proposal asks for.
abbrev pub call_of : ProposalRecord → ToolCall
call_of r = record { action = r.action; arguments = r.arguments }

abbrev pub not_found : String → Result Reply
not_found id = returned (http_error 404 (String.◌++◌ "Proposal not found: " id))

-- The header `Bearer <token>`.
abbrev pub bearer : String → Option String
bearer token = some (String.◌++◌ "Bearer " token)

verify_token-bearer : (token : String) → verify_token token (bearer token) ≡ true
unfolding verify_token
verify_token-bearer token =
    (eq_iff (String.◌++◌ "Bearer " token) (String.◌++◌ "Bearer " token)).1 refl

-- There is no such proposal, or it is no longer pending.
abbrev pub IsSettled : Option ProposalRecord → Type 0
IsSettled none = Unit
IsSettled (some r) = is_pending r.status ≡ false

module _ (database : Database) (codec : Codec) where
  open database use {Db}

  find_pending-settled :
      (id : String) (s : Store Db) (found : Option ProposalRecord)
      → get database codec id s ≡ returned found
      → IsSettled found
      → find_pending database codec id s
        ≡ returned (inr (http_error 404 (String.◌++◌ "Proposal not found: " id)))
  unfolding find_pending
  find_pending-settled id s none e h = rw e
  find_pending-settled id s (some r) e h = rw (e, h)

  pub find_pending-pending :
      (id : String) (s : Store Db) (r : ProposalRecord)
      → get database codec id s ≡ returned (some r)
      → r.status ≡ pending
      → find_pending database codec id s ≡ returned (inl r)
  unfolding find_pending
  find_pending-pending id s r e h = rw e (ground arith)

  module _ {Value : Type 0} (encode : Value → Result Json) (show : Value → String)
      (token id : String) where
    -- A proposal that is missing or settled: approval and rejection answer 404, call no tool and
    -- change nothing.
    pub settled :
        (call : ToolCall → Result Value) (s : Store Db) (calls : List ToolCall)
        (found : Option ProposalRecord)
        → get database codec id s ≡ returned found
        → IsSettled found
        → (approve_proposal database codec encode show token
              (some call)
              (bearer token)
              id
              (record { store = some s; calls = calls })
            ≡ (record { store = some s; calls = calls }, not_found id))
          × (reject_proposal database codec token
                (bearer token)
                id
                (record { store = some s; calls = calls })
              ≡ (record { store = some s; calls = calls }, not_found id))
    unfolding approve_proposal reject_proposal
    settled call s calls found e h = (
      rw (verify_token-bearer token, find_pending-settled id s found e h),
      rw (verify_token-bearer token, find_pending-settled id s found e h),
    )

    pub after_call-store :
        (o : Result Value) (s : Store Db)
        → (after_call database codec encode show id o s).0
          ≡ set_status database id (status_text (outcome_status o)) (outcome_error o) s
    unfolding after_call
    after_call-store (returned v) s = refl
    after_call-store (raised e) s = refl

    get-decided :
        (status : ProposalStatus) (error : Option String) (s : Store Db) (r : ProposalRecord)
        (k : String)
        → IsReadable database codec s
        → get database codec id s ≡ returned (some r)
        → get database codec k (set_status database id (status_text status) error s)
          ≡ (if id == k then returned (some (decided status error r)) else get database codec k s)
    get-decided status error s r k readable e =
        get-set_status database codec id status error s k readable ∙ elim (Bool-cases (id == k)) [
          | inl same ↦ rw (same, ap (λ x. get database codec x s) (sym ((eq_iff id k).0 same)), e)
          | inr other ↦ rw other
        ]

    -- Every proposal can be read, and this is what `get` finds after a decision of `r`.
    pub record Decision (status : ProposalStatus) (error : Option String) (r : ProposalRecord)
        (s s' : Store Db) : Type 0 where
      pub readable : IsReadable database codec s'
      pub found :
          (k : String)
          → get database codec k s'
            ≡ (if id == k then returned (some (decided status error r)) else get database codec k s)

    pub set_status-Decision :
        (status : ProposalStatus) (error : Option String) (s : Store Db) (r : ProposalRecord)
        → IsReadable database codec s
        → get database codec id s ≡ returned (some r)
        → Decision status error r s (set_status database id (status_text status) error s)
    set_status-Decision status error s r readable e = record {
      readable = set_status-IsReadable database codec id status error s readable;
      found = λ k. get-decided status error s r k readable e;
    }

    -- Where every row can be read, and no other request comes in between: approving a pending
    -- proposal makes one tool call, that of its action and arguments. If the call
    -- returns, the proposal becomes applied, and failed with the exception's text if it raises; every
    -- other proposal stays as it was.
    pub approve_pending :
        (call : ToolCall → Result Value) (s : Store Db) (calls : List ToolCall) (r : ProposalRecord)
        → IsReadable database codec s
        → get database codec id s ≡ returned (some r)
        → r.status ≡ pending
        → (s' : Store Db) × ((approve_proposal database codec encode show token
              (some call)
              (bearer token)
              id
              (record { store = some s; calls = calls })).0
            ≡ record { store = some s'; calls = calls ++ call_of r ∷ [] })
          × Decision (outcome_status (call (call_of r))) (outcome_error (call (call_of r))) r s s'
    unfolding approve_proposal apply_proposal
    approve_pending call s calls r readable e waits =
        let o = call (call_of r) in
        (
          set_status database id (status_text (outcome_status o)) (outcome_error o) s,
          rw (verify_token-bearer token, find_pending-pending id s r e waits, after_call-store o s),
          set_status-Decision (outcome_status o) (outcome_error o) s r readable e,
        )

    -- Rejecting a pending proposal calls no tool and answers 200; the proposal becomes rejected, and
    -- every other stays as it was.
    pub reject_pending :
        (s : Store Db) (calls : List ToolCall) (r : ProposalRecord)
        → IsReadable database codec s
        → get database codec id s ≡ returned (some r)
        → r.status ≡ pending
        → (s' : Store Db) × (reject_proposal database codec token
              (bearer token)
              id
              (record { store = some s; calls = calls })
            ≡ (
              record { store = some s'; calls = calls },
              returned (json 200 (object (field "status" (string "rejected") end))),
            ))
          × Decision rejected none r s s'
    unfolding reject_proposal after_check
    reject_pending s calls r readable e waits = (
      set_status database id (status_text rejected) none s,
      rw (verify_token-bearer token, find_pending-pending id s r e waits),
      set_status-Decision rejected none s r readable e,
    )

    decided-IsSettled :
        (o : Result Value) (r : ProposalRecord)
        → IsSettled (some (decided (outcome_status o) (outcome_error o) r))
    decided-IsSettled (returned v) r = refl
    decided-IsSettled (raised e) r = refl

    -- Where every row can be read, and the requests do not overlap, a pending proposal is decided
    -- once. After its approval, whatever the call's outcome, a second
    -- approval or a rejection answers 404, calls no tool and changes nothing; the same after its
    -- rejection.
    pub decided_once :
        (call again : ToolCall → Result Value) (s : Store Db) (calls : List ToolCall)
        (r : ProposalRecord)
        → IsReadable database codec s
        → get database codec id s ≡ returned (some r)
        → r.status ≡ pending
        → let a : Api Db = record { store = some s; calls = calls } in
          let approved =
            (approve_proposal database codec encode show token (some call) (bearer token) id a).0 in
          let refused = (reject_proposal database codec token (bearer token) id a).0 in
          (approve_proposal database codec encode show token (some again) (bearer token) id approved
            ≡ (approved, not_found id))
          × (reject_proposal database codec token (bearer token) id approved
              ≡ (approved, not_found id))
          × (approve_proposal database codec encode show token
                (some again)
                (bearer token)
                id
                refused
              ≡ (refused, not_found id))
          × (reject_proposal database codec token (bearer token) id refused
              ≡ (refused, not_found id))
    decided_once call again s calls r readable e waits =
        let (s1, e1, d1) = approve_pending call s calls r readable e waits in
        let (s2, e2, d2) = reject_pending s calls r readable e waits in
        let o = call (call_of r) in
        let same = (eq_iff id id).1 refl in
        let (x1, y1) =
          settled again s1 (calls ++ call_of r ∷ [])
            (some (decided (outcome_status o) (outcome_error o) r)) (d1.found id ∙ rw same)
            (decided-IsSettled o r) in
        let (x2, y2) =
          settled again s2 calls (some (decided rejected none r)) (d2.found id ∙ rw same) refl in
        (rw e1 x1, rw e1 y1, rw e2 x2, rw e2 y2)
