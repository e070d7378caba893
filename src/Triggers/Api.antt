-- ===== src/Triggers/Api.antt =====
-- src/saga_agents/triggers/api.py: the handlers of `build_api`, and `apply_proposal` of
-- src/saga_agents/proposals/apply.py. Routing is FastAPI's: a handler takes the values of its path
-- parameters and the Authorization header. An exception that a handler does not catch is `raised`.
pub mod Queries
pub mod Access
pub mod Approval
pub mod Overlap
pub mod History
mod Tests
use Prim.Native.String
use saga_agents.Common.{
  ℕ, String, ◌==◌, Bool, true, false, List, [], ◌∷◌, ◌++◌, Option, none, some, if◌then◌else◌,
  length, ◌⊎◌, inl, inr,
}
use saga_agents.Common.Dict.{Dict, lookup, insert}
use saga_agents.Common.Json.{Json, string, object, field, end}
use saga_agents.Common.Result.{Result, returned, raised, ◌>>=◌}
use saga_agents.Config.Models.{AgentDefinition}
use saga_agents.Proposals.Database.{Database, Codec}
use saga_agents.Proposals.Store.{
  ProposalStatus, pending, applied, rejected, failed, ProposalRecord, Store, status_text,
  list_pending, get, set_status,
}
use saga_agents.Triggers.Base.{RunRequest}

-- JSONResponse(body, status_code), HTTPException(status_code, detail), or a text.
pub data Reply : Type 0 where
  json : ℕ → Json → Reply
  exposition : String → Reply
  http_error : ℕ → String → Reply

abbrev error_body : String → Json
error_body text = object (field "error" (string text) end)

-- `_verify_token`
unfoldable pub verify_token : String → Option String → Bool
verify_token expected none = false
verify_token expected (some authorization) = authorization == String.◌++◌ "Bearer " expected

-- `Depends(_verify_token)`: the handler runs behind the check.
abbrev pub guarded {ℓ} : {S : Type ℓ} → Bool → S → S × Result Reply → S × Result Reply
guarded true s handled = handled
guarded false s handled = (s, returned (http_error 403 "Invalid or missing token"))

abbrev pub is_known {ℓ} : {A : Type ℓ} → Option A → Bool
is_known none = false
is_known (some a) = true

abbrev pub accepted : {E : Type 0} → String → E × Result (Unit {0}) → E × Result Reply
accepted agent_id (e, r) = (
  e,
  (do
    _ ← r
    returned (
        json 202
          (object (field "status" (string "accepted") (field "agent_id" (string agent_id) end))))),
)

module _ {E : Type 0} (definitions : Dict AgentDefinition) (expected_token : String)
    (submit : RunRequest → E → E × Result (Unit {0})) where
  -- POST /triggers/{agent_id}, over the state of the executor
  unfoldable pub trigger_agent : Option String → String → E → E × Result Reply
  trigger_agent authorization agent_id e = guarded (verify_token expected_token authorization) e (
      if is_known (lookup agent_id definitions)
      then accepted agent_id (submit (record { agent_id = agent_id; reason = "external" }) e)
      else (e, returned (http_error 404 (String.◌++◌ "Unknown agent: " agent_id))))

-- One call of an MCP tool.
pub record ToolCall : Type 0 where
  pub action : String
  pub arguments : Dict Json

-- The proposal store, if there is one, and the MCP calls made so far.
pub record Api (Db : Type 0) : Type 0 where
  pub store : Option (Store Db)
  pub calls : List ToolCall

abbrev pub is_pending : ProposalStatus → Bool
is_pending pending = true
is_pending _ = false

-- `record is None or record.status != "pending"` raises 404.
abbrev pub pending_or_404 : String → Option ProposalRecord → ProposalRecord ⊎ Reply
pending_or_404 id none = inr (http_error 404 (String.◌++◌ "Proposal not found: " id))
pending_or_404 id (some r) =
    if is_pending r.status
    then inl r
    else inr (http_error 404 (String.◌++◌ "Proposal not found: " id))

abbrev pub disabled : Reply
disabled = json 503 (error_body "proposals disabled")

-- The MCP call of `apply_proposal`.
unfoldable pub apply_proposal : ProposalRecord → ToolCall
apply_proposal r = record { action = r.action; arguments = r.arguments }

module _ (database : Database) (codec : Codec) where
  open database use {Db}

  -- `proposal_store.get`, and the check of the record
  unfoldable pub find_pending : String → Store Db → Result (ProposalRecord ⊎ Reply)
  find_pending id s = do found ← get database codec id s; returned (pending_or_404 id found)

  -- `reject_proposal` behind the check of the record
  unfoldable pub after_check : String → Store Db → Store Db × Reply
  after_check id s = (
    set_status database id (status_text rejected) none s,
    json 200 (object (field "status" (string "rejected") end)),
  )

  abbrev pub reject_found :
      String → Store Db → Api Db → Result (ProposalRecord ⊎ Reply) → Api Db × Result Reply
  reject_found id s a (raised e) = (a, raised e)
  reject_found id s a (returned (inr reply)) = (a, returned reply)
  reject_found id s a (returned (inl r)) =
      let (s', reply) = after_check id s in (record a { store = some s' }, returned reply)

  -- POST /proposals/{proposal_id}/reject, with no other request in between
  unfoldable pub reject_proposal : String → Option String → String → Api Db → Api Db × Result Reply
  unfolding after_check
  reject_proposal expected authorization id a =
      guarded (verify_token expected authorization) a (elim a.store [
        | none ↦ (a, returned disabled)
        | some s ↦ reject_found id s a (find_pending id s)
      ])

-- `encode` is jsonable_encoder and `show` is str, on what an MCP tool returns.
module _ (database : Database) (codec : Codec) {Value : Type 0} (encode : Value → Result Json)
    (show : Value → String) where
  open database use {Db}

  -- `safe_result`
  abbrev safe_result : Value → Json
  safe_result v = elim (encode v) [ returned j ↦ j | raised e ↦ string (show v) ]

  -- `approve_proposal` from the end of `apply_proposal` on
  unfoldable pub after_call : String → Result Value → Store Db → Store Db × Reply
  after_call id (returned v) s = (
    set_status database id (status_text applied) none s,
    json 200 (object (field "status" (string "applied") (field "result" (safe_result v) end))),
  )
  after_call id (raised e) s =
      (set_status database id (status_text failed) (some e) s, json 500 (error_body e))

  abbrev pub approve_found :
      (ToolCall → Result Value)
      → String
      → Store Db
      → Api Db
      → Result (ProposalRecord ⊎ Reply)
      → Api Db × Result Reply
  approve_found mcp_call id s a (raised e) = (a, raised e)
  approve_found mcp_call id s a (returned (inr reply)) = (a, returned reply)
  approve_found mcp_call id s a (returned (inl r)) =
      let (s', reply) = after_call id (mcp_call (apply_proposal r)) s in
      (record { store = some s'; calls = a.calls ++ apply_proposal r ∷ [] }, returned reply)

  -- POST /proposals/{proposal_id}/approve, with no other request in between
  unfoldable pub approve_proposal :
      String
      → Option (ToolCall → Result Value)
      → Option String
      → String
      → Api Db
      → Api Db × Result Reply
  unfolding find_pending after_call apply_proposal
  approve_proposal expected mcp_call authorization id a =
      guarded (verify_token expected authorization) a (elim mcp_call [
        | none ↦ (a, returned disabled)
        | some call ↦ elim a.store [
          | none ↦ (a, returned disabled)
          | some s ↦ approve_found call id s a (find_pending database codec id s)
        ]
      ])
