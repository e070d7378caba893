-- ===== src/Triggers/Api/Queries.antt =====
-- The endpoints of src/saga_agents/triggers/api.py that read: the pending proposals of an agent, the
-- statistics and the liveness probe. `dump` is pydantic's model_dump, and `decimal` is how an integer
-- is written.
use saga_agents.Common.{ℕ, String, List, [], ◌∷◌, Option, none, some, length}
use saga_agents.Common.Dict.{Dict}
use saga_agents.Common.Json.{
  Json, bool, number, string, array, object, Items, nil, cons, Fields, end, field,
}
use saga_agents.Common.Result.{Result, returned, ◌>>=◌}
use saga_agents.Config.Models.{AgentDefinition}
use saga_agents.Proposals.Database.{Database, Codec}
use saga_agents.Proposals.Store.{ProposalRecord, Store, list_pending}
use saga_agents.Triggers.Api.{Reply, json, guarded, verify_token, disabled, Api}

-- GET /healthz
abbrev pub healthz : Reply
healthz = json 200 (object (field "status" (string "ok") end))

-- [{"id": aid, "enabled": d.enabled} for aid, d in definitions.items()]
unfoldable pub agent_items : Dict AgentDefinition → Items
agent_items [] = nil
agent_items ((aid, d) ∷ rest) =
    cons (object (field "id" (string aid) (field "enabled" (bool d.enabled) end)))
      (agent_items rest)

module _ (database : Database) (codec : Codec) where
  open database use {Db}

  module _ (dump : ProposalRecord → Json) where
    -- [r.model_dump(mode="json") for r in records]
    unfoldable pub dumped : List ProposalRecord → Items
    dumped [] = nil
    dumped (r ∷ rs) = cons (dump r) (dumped rs)

    abbrev pub listed : String → Option (Store Db) → Result Reply
    listed agent_id none = returned disabled
    listed agent_id (some s) = do
      records ← list_pending database codec (some agent_id) s
      returned (json 200 (array (dumped records)))

    -- GET /agents/{agent_id}/proposals
    unfoldable pub list_proposals : String → Option String → String → Api Db → Api Db × Result Reply
    unfolding dumped
    list_proposals expected authorization agent_id a =
        guarded (verify_token expected authorization) a (a, listed agent_id a.store)

  module _ (decimal : ℕ → String) where
    -- The loop over the definitions that counts the pending proposals.
    unfoldable pub pending_counts : Dict AgentDefinition → Store Db → Result Fields
    pending_counts [] s = returned end
    pending_counts ((aid, d) ∷ rest) s = do
      pending ← list_pending database codec (some aid) s
      counts ← pending_counts rest s
      returned (field aid (number (decimal (length pending))) counts)

    abbrev pub proposal_counts : Dict AgentDefinition → Option (Store Db) → Result Fields
    proposal_counts definitions none = returned end
    proposal_counts definitions (some s) = pending_counts definitions s

    -- GET /stats
    unfoldable pub stats :
        Dict AgentDefinition → String → Option String → Api Db → Api Db × Result Reply
    unfolding agent_items pending_counts
    stats definitions expected authorization a = guarded (verify_token expected authorization) a (
      a,
      (do
        proposals ← proposal_counts definitions a.store
        returned (
            json 200 (
              object (
                field "agents" (array (agent_items definitions)) (
                  field "proposals" (object proposals) (
                    field "runtime"
                      (object (field "agent_count" (number (decimal (length definitions))) end))
                      end)))))),
    )
