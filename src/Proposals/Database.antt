-- ===== src/Proposals/Database.antt =====
-- What src/saga_agents/proposals/store.py asks of SQLite, and of the text forms of its columns.
-- Neither is part of the repository: the statements of the source are the operations of a record,
-- with their documented effect on what a SELECT by the primary key answers.
use mathlib.Core.Option
use mathlib.Core.List.{Mem}
use saga_agents.Common.{
  ℕ, String, ◌≡◌, ◌↔◌, ◌==◌, Bool, true, false, List, Option, none, some, one_if, if◌then◌else◌,
}
use saga_agents.Common.Dict.{Dict}
use saga_agents.Common.Json.{Json}
use saga_agents.Common.Result.{Result, returned}

-- A row of the table `proposals`.
pub record Row : Type 0 where
  pub id : String
  pub agent_id : String
  pub run_id : String
  pub action : String
  pub arguments : String
  pub rationale : String
  pub status : String
  pub created_at : String
  pub error : Option String

-- UPDATE proposals SET status = ?, error = ?
abbrev pub set_columns : String → Option String → Row → Row
set_columns status error r = record r { status = status; error = error }

abbrev pub is_some {ℓ} : {A : Type ℓ} → Option A → Bool
is_some none = false
is_some (some a) = true

-- `WHERE status = ?`, and `AND agent_id = ?` where an agent is given.
abbrev pub of_agent : Option String → Row → Bool
of_agent none r = true
of_agent (some a) r = r.agent_id == a

pub record Database : Type 1 where
  pub Db : Type 0
  -- CREATE TABLE IF NOT EXISTS
  pub create : Db → Db
  -- SELECT … WHERE id = ?
  pub find : Db → String → Option Row
  -- INSERT; none where the primary key is taken, which raises
  pub insert : Row → Db → Option Db
  -- UPDATE … WHERE id = ?, and the row count
  pub update_status : String → Option String → String → Db → Db × ℕ
  -- SELECT … WHERE status = ? [AND agent_id = ?] ORDER BY created_at
  pub select : String → Option String → Db → List Row
  pub find-create : (d : Db) (k : String) → find (create d) k ≡ find d k
  pub id-find : (d : Db) (k : String) (r : Row) → find d k ≡ some r → r.id ≡ k
  pub insert_new : (d : Db) (r : Row) → find d r.id ≡ none → (d' : Db) × (insert r d ≡ some d')
  pub insert_taken : (d : Db) (r old : Row) → find d r.id ≡ some old → insert r d ≡ none
  pub find-insert :
      (d d' : Db) (r : Row) (k : String)
      → insert r d ≡ some d'
      → find d' k ≡ (if r.id == k then some r else find d k)
  pub find-update :
      (d : Db) (status : String) (error : Option String) (k j : String)
      → find (update_status status error k d).0 j
        ≡ (if k == j then Option.map (set_columns status error) (find d j) else find d j)
  pub rowcount :
      (d : Db) (status : String) (error : Option String) (k : String)
      → (update_status status error k d).1 ≡ one_if (is_some (find d k))
  pub select_iff :
      (d : Db) (status : String) (agent : Option String) (r : Row)
      → Mem r (select status agent d)
        ↔ ((find d r.id ≡ some r) × ((r.status == status) ≡ true) × (of_agent agent r ≡ true))

-- json.dumps and json.loads on objects, datetime.isoformat and datetime.fromisoformat.
pub record Codec : Type 0 where
  pub dumps : Dict Json → String
  pub loads : String → Result (Dict Json)
  pub isoformat : ℕ → String
  pub fromisoformat : String → Result ℕ
  pub loads-dumps : (x : Dict Json) → loads (dumps x) ≡ returned x
  pub fromisoformat-isoformat : (t : ℕ) → fromisoformat (isoformat t) ≡ returned t
