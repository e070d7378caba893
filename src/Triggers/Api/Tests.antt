-- ===== src/Triggers/Api/Tests.antt =====
-- Requests to the API on a store with one pending proposal.
use mathlib.Core.List.{Mem}
use saga_agents.Common.{get_elem?, ℕ, String, ◌≡◌, refl, List, [], ◌∷◌, none, some, All}
use saga_agents.Common.Dict.{Dict}
use saga_agents.Common.Json.{object, field, end, Json, string}
use saga_agents.Common.Result.{Result, returned, raised}
use saga_agents.Config.Models.{AgentDefinition, default_definition}
use saga_agents.Triggers.Base.{RunRequest}
use saga_agents.Proposals.Memory.{memory}
use saga_agents.Proposals.TextCodec.{text_codec}
use saga_agents.Proposals.Database.{Row}
use saga_agents.Proposals.Store.{
  failed, rejected, pending, ProposalRecord, Store, new_record, add, get, list_pending,
  record_to_row, rows_to_records, row_to_record,
}
use saga_agents.Proposals.Store.Readable.{IsReadable, get-add, row_to_record-record_to_row}
use saga_agents.Proposals.Store.Listing.{Listed, list_pending-Listed}
use saga_agents.Proposals.Store.Updates.{decided, add-IsReadable}
use saga_agents.Triggers.Api.{
  json, ToolCall, Api, apply_proposal, approve_proposal, reject_proposal, trigger_agent,
}
use saga_agents.Triggers.Api.Overlap.{
  Server, answered, approves, rejects, update_begins, call_ends, serve, applied_twice,
  rejection_overwritten,
}
use saga_agents.Triggers.Api.Queries.{list_proposals, stats}
use saga_agents.Triggers.Api.Access.{forbidden, unauthorized}
use saga_agents.Triggers.Api.Approval.{bearer, not_found, decided_once}

abbrev empty : Store (List Row)
empty = record { db = []; transitions = [] }

abbrev pub deletion : ProposalRecord
deletion = record {
  id = "p1";
  agent_id = "janitor";
  run_id = "r1";
  action = "delete";
  arguments = ("document", string "42") ∷ [];
  rationale = "a duplicate";
  status = pending;
  created_at = 5;
  error = none;
}

made :
    new_record "p1" 5 "janitor" "r1" "delete" (("document", string "42") ∷ []) "a duplicate"
    ≡ deletion
unfolding new_record
made = refl

abbrev pub store : Store (List Row)
store = (add memory text_codec deletion empty).0

added : add memory text_codec deletion empty ≡ (store, returned deletion)
unfolding add
added = refl

empty-IsReadable : IsReadable memory text_codec empty
empty-IsReadable = record { reads = λ k row h. cc }

pub store-IsReadable : IsReadable memory text_codec store
store-IsReadable = add-IsReadable memory text_codec deletion empty empty-IsReadable

pub found : get memory text_codec "p1" store ≡ returned (some deletion)
found = get-add memory text_codec deletion empty store "p1" added

list_pending-Listed_example :
    (rs : List ProposalRecord) × (list_pending memory text_codec (some "janitor") store
      ≡ returned rs)
    × All (Listed memory text_codec (some "janitor") store) rs
    × ((r : ProposalRecord) → Listed memory text_codec (some "janitor") store r → Mem r rs)
list_pending-Listed_example =
    list_pending-Listed memory text_codec (some "janitor") store store-IsReadable

row_of_deletion : row_to_record text_codec (record_to_row text_codec deletion) ≡ returned deletion
row_of_deletion = row_to_record-record_to_row text_codec deletion

listed : list_pending memory text_codec (some "janitor") store ≡ returned (deletion ∷ [])
unfolding list_pending rows_to_records add record_to_row
listed = rw row_of_deletion

-- A tool that fails.
abbrev pub broken : ToolCall → Result String
broken call = raised "no such document"

abbrev pub encode : String → Result Json
encode text = returned (string text)

abbrev pub show : String → String
show text = text

abbrev start : Api (List Row)
start = record { store = some store; calls = [] }

abbrev approved : Api (List Row)
approved =
    (approve_proposal memory text_codec encode show "t" (some broken) (bearer "t") "p1" start).0

abbrev refused : Api (List Row)
refused = (reject_proposal memory text_codec "t" (bearer "t") "p1" start).0

decided_once_example :
    (approve_proposal memory text_codec encode show "t" (some broken) (bearer "t") "p1" approved
      ≡ (approved, not_found "p1"))
    × (reject_proposal memory text_codec "t" (bearer "t") "p1" approved
        ≡ (approved, not_found "p1"))
    × (approve_proposal memory text_codec encode show "t" (some broken) (bearer "t") "p1" refused
        ≡ (refused, not_found "p1"))
    × (reject_proposal memory text_codec "t" (bearer "t") "p1" refused ≡ (refused, not_found "p1"))
decided_once_example =
    decided_once memory text_codec encode show "t" "p1" broken broken store [] deletion
      store-IsReadable found refl

abbrev definitions : Dict AgentDefinition
definitions = ("janitor", default_definition "janitor") ∷ []

abbrev submit : RunRequest → ℕ → ℕ × Result (Unit {0})
submit request e = (1, returned tt)

abbrev dump : ProposalRecord → Json
dump r = string r.id

abbrev decimal : ℕ → String
decimal n = "1"

unauthorized_example :
    (trigger_agent definitions "t" submit none "p1" 0 ≡ (0, forbidden))
    × (approve_proposal memory text_codec encode show "t" (some broken) none "p1" start
        ≡ (start, forbidden))
    × (reject_proposal memory text_codec "t" none "p1" start ≡ (start, forbidden))
    × (list_proposals memory text_codec dump "t" none "p1" start ≡ (start, forbidden))
    × (stats memory text_codec decimal definitions "t" none start ≡ (start, forbidden))
unauthorized_example =
    unauthorized memory text_codec encode show definitions "t" submit dump decimal (some broken)
      none "p1" 0 start (λ h. cc)

applied_twice_example :
    (serve memory text_codec encode show
      (approves "p1"
        ∷ approves "p1"
        ∷ call_ends 0 (returned "done")
        ∷ call_ends 1 (returned "again")
        ∷ [])
      (record { store = store; calls = []; requests = [] })).calls
    ≡ apply_proposal deletion ∷ apply_proposal deletion ∷ []
applied_twice_example =
    applied_twice memory text_codec encode show "p1" store deletion "done" "again" found refl

abbrev after_both : Server (List Row)
after_both =
    serve memory text_codec encode show
      (approves "p1"
        ∷ rejects "p1"
        ∷ update_begins 1
        ∷ call_ends 0 (raised "no such document")
        ∷ [])
      (record { store = store; calls = []; requests = [] })

rejection_overwritten_example :
    (get_elem? after_both.requests 1
      ≡ some (answered (json 200 (object (field "status" (string "rejected") end)))))
    × (after_both.calls ≡ apply_proposal deletion ∷ [])
    × (get memory text_codec "p1" after_both.store
        ≡ returned
            (some (decided failed (some "no such document") (decided rejected none deletion))))
rejection_overwritten_example =
    rejection_overwritten memory text_codec encode show "p1" store deletion
      (raised "no such document") store-IsReadable found refl
