-- ===== src/Triggers/Api/Access.antt =====
-- The bearer token, and which triggers are accepted.
use Prim.Native.String
use saga_agents.Common.{
  ℕ, String, eq_iff, ◌≡◌, ◌≢◌, ◌↔◌, refl, true, false, Option, none, some, arith,
}
use saga_agents.Common.Dict.{Dict, lookup}
use saga_agents.Common.Json.{Json, string, object, field, end}
use saga_agents.Common.Result.{Result, returned, raised}
use saga_agents.Config.Models.{AgentDefinition}
use saga_agents.Proposals.Database.{Database, Codec}
use saga_agents.Proposals.Store.{ProposalRecord}
use saga_agents.Triggers.Api.Queries.{list_proposals, stats}
use saga_agents.Triggers.Base.{RunRequest}
use saga_agents.Triggers.Api.{
  Reply, json, http_error, verify_token, accepted, trigger_agent, ToolCall, Api, approve_proposal,
  reject_proposal,
}

verify_token_refuses :
    (expected : String) (authorization : Option String)
    → authorization ≢ some (String.◌++◌ "Bearer " expected)
    → verify_token expected authorization ≡ false
unfolding verify_token
verify_token_refuses expected none h = refl
verify_token_refuses expected (some a) h = ground (arith, eq_iff a (String.◌++◌ "Bearer " expected))

abbrev pub forbidden : Result Reply
forbidden = returned (http_error 403 "Invalid or missing token")

module _ (database : Database) (codec : Codec) {Value : Type 0} (encode : Value → Result Json)
    (show : Value → String) where
  open database use {Db}

  -- Without the header `Bearer <token>` a request triggers nothing, decides no proposal, calls no
  -- tool and reads nothing: each of the five handlers leaves its state as it was and answers 403.
  pub unauthorized :
      {E : Type 0} (definitions : Dict AgentDefinition) (expected : String)
      (submit : RunRequest → E → E × Result (Unit {0})) (dump : ProposalRecord → Json)
      (decimal : ℕ → String) (mcp_call : Option (ToolCall → Result Value))
      (authorization : Option String) (id : String) (e : E) (a : Api Db)
      → authorization ≢ some (String.◌++◌ "Bearer " expected)
      → (trigger_agent definitions expected submit authorization id e ≡ (e, forbidden))
        × (approve_proposal database codec encode show expected mcp_call authorization id a
            ≡ (a, forbidden))
        × (reject_proposal database codec expected authorization id a ≡ (a, forbidden))
        × (list_proposals database codec dump expected authorization id a ≡ (a, forbidden))
        × (stats database codec decimal definitions expected authorization a ≡ (a, forbidden))
  unfolding list_proposals stats trigger_agent approve_proposal reject_proposal
  unauthorized definitions expected submit dump decimal mcp_call authorization id e a h =
      let refused = verify_token_refuses expected authorization h in
      (rw refused, rw refused, rw refused, rw refused, rw refused)

verify_token_iff :
    (expected : String) (authorization : Option String)
    → (verify_token expected authorization ≡ true)
      ↔ (authorization ≡ some (String.◌++◌ "Bearer " expected))
unfolding verify_token
verify_token_iff expected none = ground arith
verify_token_iff expected (some a) = ground (arith, eq_iff a (String.◌++◌ "Bearer " expected))

abbrev accepted_reply : String → Reply
accepted_reply id =
    json 202 (object (field "status" (string "accepted") (field "agent_id" (string id) end)))

accepted_iff :
    {E : Type 0} (id : String) (r : E × Result (Unit {0}))
    → ((accepted id r).1 ≡ returned (accepted_reply id)) ↔ (r.1 ≡ returned tt)
accepted_iff id (e, returned u) = (λ h. refl, λ h. refl)
accepted_iff id (e, raised x) = (λ h. cc, λ h. cc)

-- A trigger answers 202 exactly when its header is `Bearer <token>`, its agent is configured, and
-- the submit of a request for that agent with reason "external" returns.
trigger_agent_iff :
    {E : Type 0} (definitions : Dict AgentDefinition) (expected : String)
    (submit : RunRequest → E → E × Result (Unit {0})) (authorization : Option String) (id : String)
    (e : E)
    → ((trigger_agent definitions expected submit authorization id e).1
        ≡ returned (accepted_reply id))
      ↔ ((authorization ≡ some (String.◌++◌ "Bearer " expected))
          × (lookup id definitions ≢ none)
          × ((submit (record { agent_id = id; reason = "external" }) e).1 ≡ returned tt))
unfolding trigger_agent
trigger_agent_iff definitions expected submit authorization id e =
    let token = verify_token_iff expected authorization in
    let sent = accepted_iff id (submit (record { agent_id = id; reason = "external" }) e) in
    ground (arith, token, sent)
