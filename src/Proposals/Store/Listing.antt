-- ===== src/Proposals/Store/Listing.antt =====
-- The pending list against `get`.
use mathlib.Core.List.{Mem, mem-cons, not-mem-nil}
use mathlib.Core.Logic.{∨₁_prop}
use mathlib.Core.Logic.Or
use saga_agents.Common.{
  String, ◌==◌, eq_iff, ◌≡◌, refl, ap, ◌∙◌, Bool, true, List, [], ◌∷◌, Option, none, some, arith,
  All, All-of_mem,
}
use saga_agents.Common.Result.{returned, bind-eq-returned}
use saga_agents.Proposals.Database.{Database, Codec, Row, of_agent}
use saga_agents.Proposals.Store.{
  pending, ProposalRecord, parse_status, Store, row_to_record, rows_to_records, list_pending, get,
  read,
}
use saga_agents.Proposals.Store.Readable.{IsReadable, id-row_to_record}

-- The record is of the agent, where one is given.
abbrev pub of_agent_id : Option String → ProposalRecord → Bool
of_agent_id none r = true
of_agent_id (some a) r = r.agent_id == a

of_agent_same :
    (agent : Option String) (row : Row) (r : ProposalRecord)
    → r.agent_id ≡ row.agent_id
    → of_agent agent row ≡ true
    → of_agent_id agent r ≡ true
of_agent_same agent row r same h = ground arith

agent_of_same :
    (agent : Option String) (row : Row) (r : ProposalRecord)
    → r.agent_id ≡ row.agent_id
    → of_agent_id agent r ≡ true
    → of_agent agent row ≡ true
agent_of_same agent row r same h = ground arith

pending_text : (t : String) → parse_status t ≡ returned pending → (t == "pending") ≡ true
unfolding parse_status
pending_text t h = ground arith

module _ (database : Database) (codec : Codec) where
  open database use {Db, find, insert, select}

  rows_to_records_total :
      (rows : List Row)
      → All (λ row. (r : ProposalRecord) × (row_to_record codec row ≡ returned r)) rows
      → (rs : List ProposalRecord) × (rows_to_records codec rows ≡ returned rs)
  unfolding rows_to_records
  rows_to_records_total [] h = ([], refl)
  rows_to_records_total (row ∷ rows) ((r, e), h) =
      let (rs, es) = rows_to_records_total rows h in (r ∷ rs, rw (e, es))

  rows_to_records-cons :
      (x : Row) (rows : List Row) (rs : List ProposalRecord)
      → rows_to_records codec (x ∷ rows) ≡ returned rs
      → (r : ProposalRecord) × (rest : List ProposalRecord) × (row_to_record codec x ≡ returned r)
        × (rows_to_records codec rows ≡ returned rest)
        × (rs ≡ r ∷ rest)
  unfolding rows_to_records
  rows_to_records-cons x rows rs e =
      let (r, e', h) = bind-eq-returned (row_to_record codec x) _ e in
      let (rest, e'', h') = bind-eq-returned (rows_to_records codec rows) _ h in
      (r, rest, e', e'', cc)

  mem-rows_to_records :
      (rows : List Row) (rs : List ProposalRecord) (row : Row) (r : ProposalRecord)
      → rows_to_records codec rows ≡ returned rs
      → row_to_record codec row ≡ returned r
      → Mem row rows
      → Mem r rs
  mem-rows_to_records [] rs row r e f m = absurd (not-mem-nil m)
  mem-rows_to_records (x ∷ rows) rs row r e f m =
      let (r', rest, read_x, read_rest, split) = rows_to_records-cons x rows rs e in
      rw split (
        mem-cons.1 (
          Or.elim (∨₁_prop) (mem-cons.0 m) (λ same. Or.inl (cc (ap (row_to_record codec) same)))
            (λ later. Or.inr (mem-rows_to_records rows rest row r read_rest f later))))

  All-rows_to_records :
      (P : ProposalRecord → Type 0) (rows : List Row) (rs : List ProposalRecord)
      → rows_to_records codec rows ≡ returned rs
      → All (λ row. (r : ProposalRecord) → row_to_record codec row ≡ returned r → P r) rows
      → All P rs
  unfolding rows_to_records
  All-rows_to_records P [] rs e h = let none_read : rs ≡ [] = cc in rw none_read tt
  All-rows_to_records P (x ∷ rows) rs e (h, hs) =
      let (r, rest, read_x, read_rest, split) = rows_to_records-cons x rows rs e in
      rw split (h r read_x, All-rows_to_records P rows rest read_rest hs)

  read_returned :
      (row : Row) (r : ProposalRecord)
      → row_to_record codec row ≡ returned r
      → read database codec (some row) ≡ returned (some r)
  read_returned row r e = rw e

  -- `get` finds the record, and it is a pending one of this agent, if one is given.
  pub record Listed (agent : Option String) (s : Store Db) (r : ProposalRecord) : Type 0 where
    pub found : get database codec r.id s ≡ returned (some r)
    pub waits : r.status ≡ pending
    pub belongs : of_agent_id agent r ≡ true

  row-Listed :
      (agent : Option String) (s : Store Db) (row : Row)
      → Mem row (select "pending" agent s.db)
      → (r : ProposalRecord) → row_to_record codec row ≡ returned r
      → Listed agent s r
  unfolding get parse_status
  row-Listed agent s row m r e =
      let (found, waits, belongs) = (database.select_iff s.db "pending" agent row).0 m in
      let (same, agent_same, status) = id-row_to_record codec row r e in
      let text : row.status ≡ "pending" = (eq_iff row.status "pending").0 waits in
      record {
        found =
            ap (λ k. read database codec (find s.db k)) same
            ∙ ap (read database codec) found
            ∙ read_returned row r e;
        waits = cc (status, ap parse_status text);
        belongs = of_agent_same agent row r agent_same belongs;
      }

  row_of_read :
      (o : Option Row) (r : ProposalRecord)
      → read database codec o ≡ returned (some r)
      → (row : Row) × (o ≡ some row) × (row_to_record codec row ≡ returned r)
  row_of_read none r h = cc
  row_of_read (some row) r h =
      let (r', e, same) = bind-eq-returned (row_to_record codec row) _ h in (row, refl, cc)

  pub row_of_get :
      (k : String) (s : Store Db) (r : ProposalRecord)
      → get database codec k s ≡ returned (some r)
      → (row : Row) × (find s.db k ≡ some row) × (row_to_record codec row ≡ returned r)
  unfolding get
  row_of_get k s r h = row_of_read (find s.db k) r h

  list_pending_sound :
      (agent : Option String) (s : Store Db)
      → IsReadable database codec s
      → (rs : List ProposalRecord) × (list_pending database codec agent s ≡ returned rs)
        × All (Listed agent s) rs
  unfolding list_pending
  list_pending_sound agent s readable =
      let rows : List Row = select "pending" agent s.db in
      let (rs, e) = rows_to_records_total rows (
        All-of_mem _ rows λ row m.
          readable.reads row.id row ((database.select_iff s.db "pending" agent row).0 m).0) in
      (
        rs,
        e,
        All-rows_to_records (Listed agent s) rows rs e (All-of_mem _ rows (row-Listed agent s)),
      )

  list_pending_complete :
      (agent : Option String) (s : Store Db) (r : ProposalRecord) (rs : List ProposalRecord)
      → list_pending database codec agent s ≡ returned rs
      → Listed agent s r
      → Mem r rs
  unfolding list_pending
  list_pending_complete agent s r rs e l =
      let (row, found, e') = row_of_get r.id s r l.found in
      let (same, agent_same, status) = id-row_to_record codec row r e' in
      mem-rows_to_records (select "pending" agent s.db) rs row r e e' (
        (database.select_iff s.db "pending" agent row).1 (
          cc (found, ap (find s.db) same),
          pending_text row.status (status ∙ ap returned l.waits),
          agent_of_same agent row r agent_same l.belongs,
        ))

  -- Where every row can be read, `list_pending` returns, and each record in the list is one that
  -- `get` finds, pending and of the agent asked for; and every such record that `get` finds is in
  -- the list.
  pub list_pending-Listed :
      (agent : Option String) (s : Store Db)
      → IsReadable database codec s
      → (rs : List ProposalRecord) × (list_pending database codec agent s ≡ returned rs)
        × All (Listed agent s) rs
        × ((r : ProposalRecord) → Listed agent s r → Mem r rs)
  list_pending-Listed agent s readable =
      let (rs, e, listed) = list_pending_sound agent s readable in
      (rs, e, listed, λ r l. list_pending_complete agent s r rs e l)
