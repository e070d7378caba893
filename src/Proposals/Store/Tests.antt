-- ===== src/Proposals/Store/Tests.antt =====
-- Operations on an empty store, and the table that they give.
use saga_agents.Common.{◌≡◌, refl, List, [], ◌∷◌, none, some}
use saga_agents.Common.Json.{string}
use saga_agents.Proposals.Memory.{memory}
use saga_agents.Proposals.TextCodec.{text_codec}
use saga_agents.Proposals.Database.{Row}
use saga_agents.Proposals.Store.{pending, rejected, failed, ProposalRecord, Store, get}
use saga_agents.Proposals.Store.Updates.{decided}
use saga_agents.Proposals.Store.Refinement.{
  Operation, adds, decides, Table, in_table, in_store, Shows, in_store-Shows,
}

abbrev deletion : ProposalRecord
deletion = record {
  id = "p1";
  agent_id = "janitor";
  run_id = "r1";
  action = "delete";
  arguments = ("document", string "42") ∷ [];
  rationale = "a duplicate";
  status = pending;
  created_at = 5;
  error = none;
}

abbrev empty_store : Store (List Row)
empty_store = record { db = []; transitions = [] }

abbrev empty_table : Table
empty_table = record { proposals = λ k. none; changes = [] }

empty-Shows : Shows memory text_codec empty_store empty_table
unfolding get
empty-Shows = record {
  readable = record { reads = λ k row h. cc };
  found = λ k. refl;
  counted = refl;
}

-- The id is taken at its second addition, and there is no "p2".
abbrev operations : List Operation
operations =
    adds deletion
    ∷ decides "p2" rejected none
    ∷ adds (record deletion { action = "archive" })
    ∷ decides "p1" failed (some "gone")
    ∷ []

table_then :
    ((in_table operations empty_table).proposals "p1"
      ≡ some (decided failed (some "gone") deletion))
    × ((in_table operations empty_table).changes ≡ "failed" ∷ [])
unfolding in_table
table_then = (refl, refl)

in_store-Shows_example :
    Shows memory text_codec
      (in_store memory text_codec operations empty_store)
      (in_table operations empty_table)
in_store-Shows_example =
    in_store-Shows memory text_codec operations empty_store empty_table empty-Shows
