-- ===== src/Proposals/Store/Updates.antt =====
-- Status changes: `get` after `set_status`, the metric, and that every row stays readable.
use mathlib.Core.Option
use saga_agents.Common.{
  String, ◌==◌, ◌≡◌, ◌∙◌, sym, refl, ap, [], ◌∷◌, ◌++◌, Option, none, some, arith, if◌then◌else◌,
  Bool-cases, Option-cases, inl, inr,
}
use saga_agents.Common.Result.{Result, returned}
use saga_agents.Proposals.Database.{Database, Codec, Row, set_columns, is_some}
use saga_agents.Proposals.Store.{
  ProposalStatus, ProposalRecord, status_text, Store, row_to_record, record_to_row, get, add,
  set_status, read, stored,
}
use saga_agents.Proposals.Store.Readable.{
  IsReadable, parse_status-status_text, row_to_record-record_to_row,
}

-- The record with the columns that UPDATE writes.
abbrev pub decided : ProposalStatus → Option String → ProposalRecord → ProposalRecord
decided status error r = record r { status = status; error = error }

abbrev pub decided_if_there :
    ProposalStatus → Option String → Result (Option ProposalRecord) → Result (Option ProposalRecord)
decided_if_there status error (returned (some r)) = returned (some (decided status error r))
decided_if_there status error other = other

module _ (codec : Codec) where
  -- Reading a row whose status was overwritten.
  row_to_record-set_columns :
      (row : Row) (r : ProposalRecord) (status : ProposalStatus) (error : Option String)
      → row_to_record codec row ≡ returned r
      → row_to_record codec (set_columns (status_text status) error row)
        ≡ returned (decided status error r)
  unfolding row_to_record
  row_to_record-set_columns row r status error h = ground (arith, parse_status-status_text status)

module _ (database : Database) (codec : Codec) where
  open database use {Db, find, update_status}

  db-set_status :
      (id status : String) (error : Option String) (s : Store Db)
      → (set_status database id status error s).db ≡ (update_status status error id s.db).0
  unfolding set_status
  db-set_status id status error s = ground arith

  decided_read :
      (status : ProposalStatus) (error : Option String) (row : Option Row)
      → ((x : Row) → row ≡ some x → (r : ProposalRecord) × (row_to_record codec x ≡ returned r))
      → read database codec (Option.map (set_columns (status_text status) error) row)
        ≡ decided_if_there status error (read database codec row)
  decided_read status error none readable = refl
  decided_read status error (some x) readable =
      let (r, e) = readable x refl in rw (e, row_to_record-set_columns codec x r status error e)

  -- Where every row can be read: after `set_status`, `get` of that id gives the record with the new
  -- status and error, if there was one; and `get` of any other id what it gave before.
  pub get-set_status :
      (id : String) (status : ProposalStatus) (error : Option String) (s : Store Db) (k : String)
      → IsReadable database codec s
      → get database codec k (set_status database id (status_text status) error s) ≡ (
          if id == k
          then decided_if_there status error (get database codec k s)
          else get database codec k s)
  unfolding get
  get-set_status id status error s k readable =
      rw
        (
          db-set_status id (status_text status) error s,
          database.find-update s.db (status_text status) error id k,
        )
        (elim (Bool-cases (id == k)) [
          | inl same ↦ rw same (decided_read status error (find s.db k) (readable.reads k))
          | inr other ↦ rw other
        ])

  -- AGENT_PROPOSALS is incremented, under the new status, exactly where the id has a row.
  pub transitions-set_status :
      (id status : String) (error : Option String) (s : Store Db)
      → (set_status database id status error s).transitions
        ≡ (if is_some (find s.db id) then s.transitions ++ status ∷ [] else s.transitions)
  unfolding set_status
  transitions-set_status id status error s = ground (arith, database.rowcount s.db status error id)

  map_reads :
      (status : ProposalStatus) (error : Option String) (o : Option Row) (row : Row)
      → Option.map (set_columns (status_text status) error) o ≡ some row
      → ((x : Row) → o ≡ some x → (r : ProposalRecord) × (row_to_record codec x ≡ returned r))
      → (r : ProposalRecord) × (row_to_record codec row ≡ returned r)
  map_reads status error none row e reads = cc
  map_reads status error (some x) row e reads =
      let (r, read_x) = reads x refl in
      let same : row ≡ set_columns (status_text status) error x = cc in
      (
        decided status error r,
        ap (row_to_record codec) same ∙ row_to_record-set_columns codec x r status error read_x,
      )

  pub set_status-IsReadable :
      (id : String) (status : ProposalStatus) (error : Option String) (s : Store Db)
      → IsReadable database codec s
      → IsReadable database codec (set_status database id (status_text status) error s)
  set_status-IsReadable id status error s h = record {
    reads = λ k row at.
        let at' =
          sym (
            ap (λ d. find d k) (db-set_status id (status_text status) error s)
            ∙ database.find-update s.db (status_text status) error id k)
          ∙ at in
        elim (Bool-cases (id == k)) [
          | inl same ↦ map_reads status error (find s.db k) row (rw same at at') (h.reads k)
          | inr other ↦ h.reads k row (rw other at at')
        ];
  }

  stored-IsReadable :
      (r : ProposalRecord) (s : Store Db) (o : Option Db)
      → database.insert (record_to_row codec r) s.db ≡ o
      → IsReadable database codec s
      → IsReadable database codec (stored database codec r s o).0
  stored-IsReadable r s none e h = h
  stored-IsReadable r s (some db) e h = record {
    reads = λ k row at.
        let at' = sym (database.find-insert s.db db (record_to_row codec r) k e) ∙ at in
        elim (Bool-cases ((record_to_row codec r).id == k)) [
          | inl same ↦
              let written : row ≡ record_to_row codec r = cc (rw same at at') in
              (r, ap (row_to_record codec) written ∙ row_to_record-record_to_row codec r)
          | inr other ↦ h.reads k row (rw other at at')
        ];
  }

  pub add-IsReadable :
      (r : ProposalRecord) (s : Store Db)
      → IsReadable database codec s
      → IsReadable database codec (add database codec r s).0
  unfolding add
  add-IsReadable r s h = stored-IsReadable r s (database.insert (record_to_row codec r) s.db) refl h

  pub add-transitions :
      (r : ProposalRecord) (s : Store Db) → (add database codec r s).0.transitions ≡ s.transitions
  unfolding add
  add-transitions r s = elim (Option-cases (database.insert (record_to_row codec r) s.db)) [
    | inl e ↦ rw (e, stored) refl
    | inr (db, e) ↦ rw (e, stored) refl
  ]
