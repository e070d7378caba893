-- ===== src/Proposals/Store.antt =====
-- src/saga_agents/proposals/store.py: ProposalRecord and SqliteProposalStore.
-- The database answers: an error of SQLite other than a taken primary key is not modelled. Times
-- are microseconds. A uuid4 and the clock's reading are arguments of `add`.
pub mod Readable
pub mod Listing
pub mod Updates
pub mod Refinement
mod Tests
use Prim.Native.Nat.{compare, Ordering}
use saga_agents.Common.{
  ℕ, String, ◌==◌, Bool, true, false, List, [], ◌∷◌, ◌++◌, Option, none, some, if◌then◌else◌, ltb,
}
use saga_agents.Common.Dict.{Dict}
use saga_agents.Common.Json.{Json}
use saga_agents.Common.Result.{Result, returned, raised, ◌>>=◌}
use saga_agents.Proposals.Database.{Database, Codec, Row}

-- Literal["pending", "applied", "rejected", "failed"]
pub data ProposalStatus : Type 0 where
  pending applied rejected failed : ProposalStatus

pub record ProposalRecord : Type 0 where
  pub id : String
  pub agent_id : String
  pub run_id : String
  pub action : String
  pub arguments : Dict Json
  pub rationale : String
  pub status : ProposalStatus
  pub created_at : ℕ
  pub error : Option String

abbrev pub status_text : ProposalStatus → String
status_text pending = "pending"
status_text applied = "applied"
status_text rejected = "rejected"
status_text failed = "failed"

-- How pydantic reads the status; another text is a ValidationError.
unfoldable pub parse_status : String → Result ProposalStatus
parse_status s =
    if s == "pending"
    then returned pending
    else if s == "applied"
    then returned applied
    else if s == "rejected"
    then returned rejected
    else if s == "failed"
    then returned failed
    else raised "status"

-- The store's state: the database, and the increments of AGENT_PROPOSALS, by label.
pub record Store (Db : Type 0) : Type 0 where
  pub db : Db
  pub transitions : List String

module _ (codec : Codec) where
  open codec use {dumps, loads, isoformat, fromisoformat}

  -- `_row_to_record`
  unfoldable pub row_to_record : Row → Result ProposalRecord
  row_to_record row = do
    arguments ← loads row.arguments
    created_at ← fromisoformat row.created_at
    status ← parse_status row.status
    returned (record {
      id = row.id;
      agent_id = row.agent_id;
      run_id = row.run_id;
      action = row.action;
      arguments = arguments;
      rationale = row.rationale;
      status = status;
      created_at = created_at;
      error = row.error;
    })

  -- The values that INSERT is given.
  unfoldable pub record_to_row : ProposalRecord → Row
  record_to_row r = record {
    id = r.id;
    agent_id = r.agent_id;
    run_id = r.run_id;
    action = r.action;
    arguments = dumps r.arguments;
    rationale = r.rationale;
    status = status_text r.status;
    created_at = isoformat r.created_at;
    error = r.error;
  }

  -- `[_row_to_record(row) for row in rows]`
  unfoldable pub rows_to_records : List Row → Result (List ProposalRecord)
  rows_to_records [] = returned []
  rows_to_records (row ∷ rows) = do
    r ← row_to_record row
    rs ← rows_to_records rows
    returned (r ∷ rs)

-- The record that `add` makes.
unfoldable pub new_record :
    String → ℕ → String → String → String → Dict Json → String → ProposalRecord
new_record uuid now agent_id run_id action arguments rationale = record {
  id = uuid;
  agent_id = agent_id;
  run_id = run_id;
  action = action;
  arguments = arguments;
  rationale = rationale;
  status = pending;
  created_at = now;
  error = none;
}

module _ (database : Database) where
  open database use {Db, create, update_status}

  -- `init`
  unfoldable pub init : Store Db → Store Db
  init s = record s { db = create s.db }

  unfoldable pub set_status : String → String → Option String → Store Db → Store Db
  set_status id status error s =
      let (db, rowcount) = update_status status error id s.db in
      if ltb 0 rowcount
      then record { db = db; transitions = s.transitions ++ status ∷ [] }
      else record s { db = db }

module _ (database : Database) (codec : Codec) where
  open database use {Db, find, insert, select}

  abbrev pub stored : ProposalRecord → Store Db → Option Db → Store Db × Result ProposalRecord
  stored r s none = (s, raised "UNIQUE constraint failed: proposals.id")
  stored r s (some db) = (record s { db = db }, returned r)

  -- `add`, on the record it has made
  unfoldable pub add : ProposalRecord → Store Db → Store Db × Result ProposalRecord
  unfolding record_to_row
  add r s = stored r s (insert (record_to_row codec r) s.db)

  unfoldable pub list_pending : Option String → Store Db → Result (List ProposalRecord)
  unfolding rows_to_records
  list_pending agent s = rows_to_records codec (select "pending" agent s.db)

  abbrev pub read : Option Row → Result (Option ProposalRecord)
  read none = returned none
  read (some row) = do r ← row_to_record codec row; returned (some r)

  unfoldable pub get : String → Store Db → Result (Option ProposalRecord)
  unfolding row_to_record
  get id s = read (find s.db id)
