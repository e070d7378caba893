-- ===== src/Triggers/Api/Overlap.antt =====
-- Requests that overlap: a handler gives way to others while it awaits its tool call, or the
-- UPDATE of the store. One step is what one request does between two awaits.
use saga_agents.Common.{
  ℕ, String, ◌≡◌, refl, ap, ◌∙◌, List, [], ◌∷◌, ◌++◌, Option, none, some, get_elem?, set, inl, inr,
  ◌⊎◌, eq_iff,
}
use saga_agents.Common.Json.{Json, string, object, field, end}
use saga_agents.Common.Result.{Result, returned, raised}
use saga_agents.Proposals.Database.{Database, Codec}
use saga_agents.Proposals.Store.{
  pending, rejected, ProposalRecord, Store, status_text, get, set_status,
}
use saga_agents.Proposals.Store.Readable.{IsReadable}
use saga_agents.Proposals.Store.Updates.{decided}
use saga_agents.Triggers.Api.{
  Reply, json, ToolCall, find_pending, apply_proposal, after_call, after_check,
}
use saga_agents.Triggers.Api.Approval.{
  outcome_status, outcome_error, find_pending-pending, set_status-Decision, after_call-store,
}

-- Where a request waits, or how it has ended.
pub data Request : Type 0 where
  applying : String → Request
  rejecting : String → Request
  answered : Reply → Request
  crashed : String → Request

pub record Server (Db : Type 0) : Type 0 where
  pub store : Store Db
  pub calls : List ToolCall
  pub requests : List Request

-- The token is right, and there is a store and an MCP client.
pub data Event (Value : Type 0) : Type 0 where
  approves : String → Event Value
  rejects : String → Event Value
  call_ends : ℕ → Result Value → Event Value
  update_begins : ℕ → Event Value

module _ (database : Database) (codec : Codec) {Value : Type 0} (encode : Value → Result Json)
    (show : Value → String) where
  open database use {Db}

  -- `approve_proposal` up to its tool call
  abbrev begin_approval : String → Server Db → Result (ProposalRecord ⊎ Reply) → Server Db
  begin_approval id s (returned (inl r)) = record s {
    calls = s.calls ++ apply_proposal r ∷ [];
    requests = s.requests ++ applying id ∷ [];
  }
  begin_approval id s (returned (inr reply)) = record s {
    requests = s.requests ++ answered reply ∷ [];
  }
  begin_approval id s (raised e) = record s { requests = s.requests ++ crashed e ∷ [] }

  -- `reject_proposal` up to `set_status`
  abbrev begin_rejection : String → Server Db → Result (ProposalRecord ⊎ Reply) → Server Db
  begin_rejection id s (returned (inl r)) = record s { requests = s.requests ++ rejecting id ∷ [] }
  begin_rejection id s (returned (inr reply)) = record s {
    requests = s.requests ++ answered reply ∷ [];
  }
  begin_rejection id s (raised e) = record s { requests = s.requests ++ crashed e ∷ [] }

  abbrev end_call : ℕ → Result Value → Server Db → Option Request → Server Db
  end_call i result s (some (applying id)) =
      let (store, reply) = after_call database codec encode show id result s.store in
      record s { store = store; requests = set s.requests i (answered reply) }
  end_call i result s _ = s

  abbrev end_rejection : ℕ → Server Db → Option Request → Server Db
  end_rejection i s (some (rejecting id)) =
      let (store, reply) = after_check database codec id s.store in
      record s { store = store; requests = set s.requests i (answered reply) }
  end_rejection i s _ = s

  unfoldable pub step : Event Value → Server Db → Server Db
  unfolding find_pending after_call after_check
  step (approves id) s = begin_approval id s (find_pending database codec id s.store)
  step (rejects id) s = begin_rejection id s (find_pending database codec id s.store)
  step (call_ends i result) s = end_call i result s (get_elem? s.requests i)
  step (update_begins i) s = end_rejection i s (get_elem? s.requests i)

  unfoldable pub serve : List (Event Value) → Server Db → Server Db
  serve [] s = s
  serve (e ∷ es) s = serve es (step e s)

  server : Store Db → List ToolCall → List Request → Server Db
  server s calls requests = record { store = s; calls = calls; requests = requests }

  module _ (id : String) (s : Store Db) (calls : List ToolCall) (requests : List Request) where
    step-approves :
        (r : ProposalRecord)
        → get database codec id s ≡ returned (some r)
        → r.status ≡ pending
        → step (approves id) (server s calls requests)
          ≡ server s (calls ++ apply_proposal r ∷ []) (requests ++ applying id ∷ [])
    unfolding step server
    step-approves r e waits =
        ap (begin_approval id (record { store = s; calls = calls; requests = requests }))
          (find_pending-pending database codec id s r e waits)

    step-rejects :
        (r : ProposalRecord)
        → get database codec id s ≡ returned (some r)
        → r.status ≡ pending
        → step (rejects id) (server s calls requests)
          ≡ server s calls (requests ++ rejecting id ∷ [])
    unfolding step server
    step-rejects r e waits =
        ap (begin_rejection id (record { store = s; calls = calls; requests = requests }))
          (find_pending-pending database codec id s r e waits)

    step-call_ends :
        (i : ℕ) (result : Result Value)
        → get_elem? requests i ≡ some (applying id)
        → step (call_ends i result) (server s calls requests)
          ≡ server
              (after_call database codec encode show id result s).0
              calls
              (set requests i (answered (after_call database codec encode show id result s).1))
    unfolding step server
    step-call_ends i result at =
        ap (end_call i result (record { store = s; calls = calls; requests = requests })) at

    step-update_begins :
        (i : ℕ)
        → get_elem? requests i ≡ some (rejecting id)
        → step (update_begins i) (server s calls requests)
          ≡ server (set_status database id (status_text rejected) none s) calls (
              set requests i
                (answered (json 200 (object (field "status" (string "rejected") end)))))
    unfolding step server after_check
    step-update_begins i at =
        ap (end_rejection i (record { store = s; calls = calls; requests = requests })) at

  -- Two approvals of one pending proposal that overlap both call the tool: the second begins before
  -- the first call has ended, and finds the proposal pending still.
  pub applied_twice :
      (id : String) (s : Store Db) (r : ProposalRecord) (v w : Value)
      → get database codec id s ≡ returned (some r)
      → r.status ≡ pending
      → (serve
          (approves id ∷ approves id ∷ call_ends 0 (returned v) ∷ call_ends 1 (returned w) ∷ [])
          (record { store = s; calls = []; requests = [] })).calls
        ≡ apply_proposal r ∷ apply_proposal r ∷ []
  unfolding serve server
  applied_twice id s r v w e waits =
      let s' = (after_call database codec encode show id (returned v) s).0 in
      ap (λ x. x.calls)
        (ap (serve (approves id ∷ call_ends 0 (returned v) ∷ call_ends 1 (returned w) ∷ []))
            (step-approves id s [] [] r e waits)
          ∙ ap (serve (call_ends 0 (returned v) ∷ call_ends 1 (returned w) ∷ []))
              (step-approves id s _ _ r e waits)
          ∙ ap (serve (call_ends 1 (returned w) ∷ [])) (step-call_ends id s _ _ 0 (returned v) refl)
          ∙ step-call_ends id s' _ _ 1 (returned w) refl)

  -- Where every row can be read and nothing else is under way: a pending proposal is approved, a
  -- rejection of it comes while the tool call is awaited and writes its status, and then the call
  -- returns or raises. The rejection was answered with 200 and `rejected`, the call was made, and
  -- the proposal ends as the call did: applied, or failed with the text of the exception.
  pub rejection_overwritten :
      (id : String) (s : Store Db) (r : ProposalRecord) (o : Result Value)
      → IsReadable database codec s
      → get database codec id s ≡ returned (some r)
      → r.status ≡ pending
      → let s' : Server Db =
          serve
            (approves id ∷ rejects id ∷ update_begins 1 ∷ call_ends 0 o ∷ [])
            (record { store = s; calls = []; requests = [] }) in
        (get_elem? s'.requests 1
          ≡ some (answered (json 200 (object (field "status" (string "rejected") end)))))
        × (s'.calls ≡ apply_proposal r ∷ [])
        × (get database codec id s'.store
            ≡ returned
                (some (decided (outcome_status o) (outcome_error o) (decided rejected none r))))
  unfolding serve server
  rejection_overwritten id s r o readable e waits =
      let s1 = set_status database id (status_text rejected) none s in
      let path =
        ap (serve (rejects id ∷ update_begins 1 ∷ call_ends 0 o ∷ []))
          (step-approves id s [] [] r e waits)
        ∙ ap (serve (update_begins 1 ∷ call_ends 0 o ∷ [])) (step-rejects id s _ _ r e waits)
        ∙ ap (serve (call_ends 0 o ∷ [])) (step-update_begins id s _ _ 1 refl)
        ∙ step-call_ends id s1 _ _ 0 o refl in
      let same = (eq_iff id id).1 refl in
      let first =
        set_status-Decision database codec encode show "" id rejected none s r readable e in
      let second =
        set_status-Decision database codec encode show "" id (outcome_status o) (outcome_error o) s1
          (decided rejected none r) first.readable (first.found id ∙ rw same) in
      (
        ap (λ x. get_elem? x.requests 1) path,
        ap (λ x. x.calls) path,
        ap (λ x. get database codec id x.store) path
            ∙ ap (get database codec id) (after_call-store database codec encode show "" id o s1)
            ∙ second.found id
            ∙ rw same,
      )
