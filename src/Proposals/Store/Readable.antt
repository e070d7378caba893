-- ===== src/Proposals/Store/Readable.antt =====
-- What is written can be read: `get` after `add`.
use saga_agents.Common.{
  String, ◌==◌, ◌≡◌, refl, sym, ap, ◌∙◌, eq_iff, Option-cases, Bool-cases, inl, inr, Bool, true,
  false, Option, none, some, arith, if◌then◌else◌,
}
use saga_agents.Common.Result.{Result, returned, raised, ◌>>=◌}
use saga_agents.Proposals.Database.{Database, Codec, Row, is_some}
use saga_agents.Proposals.Store.{
  ProposalStatus, pending, applied, rejected, failed, ProposalRecord, status_text, parse_status,
  Store, row_to_record, record_to_row, add, get, stored, read,
}

pub parse_status-status_text : (p : ProposalStatus) → parse_status (status_text p) ≡ returned p
unfolding parse_status
parse_status-status_text pending = refl
parse_status-status_text applied = refl
parse_status-status_text rejected = refl
parse_status-status_text failed = refl

module _ (codec : Codec) where
  -- Reading a row that was written gives the record back.
  pub row_to_record-record_to_row :
      (r : ProposalRecord) → row_to_record codec (record_to_row codec r) ≡ returned r
  unfolding row_to_record record_to_row
  row_to_record-record_to_row r =
      simp (codec.loads-dumps, codec.fromisoformat-isoformat, parse_status-status_text)

  pub id-row_to_record :
      (row : Row) (r : ProposalRecord)
      → row_to_record codec row ≡ returned r
      → (r.id ≡ row.id)
        × (r.agent_id ≡ row.agent_id)
        × (parse_status row.status ≡ returned r.status)
  unfolding row_to_record
  id-row_to_record row r h = ground arith

module _ (database : Database) (codec : Codec) where
  open database use {Db, find, insert, select}

  -- A new id is stored, and `add` returns; a taken one raises, and nothing is written.
  pub add_total :
      (r : ProposalRecord) (s : Store Db)
      → (find s.db r.id ≡ none → (s' : Store Db) × (add database codec r s ≡ (s', returned r)))
        × ((old : Row) → find s.db r.id ≡ some old → (add database codec r s).0 ≡ s)
  unfolding add record_to_row
  add_total r s = (
    λ h.
        let (db, e) = database.insert_new s.db (record_to_row codec r) h in
        (record s { db = db }, rw e),
    λ old h. rw (database.insert_taken s.db (record_to_row codec r) old h),
  )

  pub stored-returned :
      (r : ProposalRecord) (s s' : Store Db) (o : Option Db)
      → stored database codec r s o ≡ (s', returned r)
      → (db : Db) × (o ≡ some db) × (s'.db ≡ db)
  stored-returned r s s' none h = cc
  stored-returned r s s' (some db) h = (db, refl, cc)

  read-written :
      (r : ProposalRecord) → read database codec (some (record_to_row codec r)) ≡ returned (some r)
  read-written r = rw (row_to_record-record_to_row codec r)

  id-written : (r : ProposalRecord) → (record_to_row codec r).id ≡ r.id
  unfolding record_to_row
  id-written r = refl

  read_written_if :
      (b : Bool) (r : ProposalRecord) (o : Option Row)
      → read database codec (if b then some (record_to_row codec r) else o)
        ≡ (if b then returned (some r) else read database codec o)
  read_written_if true r o = read-written r
  read_written_if false r o = refl

  -- After an `add` that returned, `get` of its id gives the record that was added, and `get` of any
  -- other id what it gave before.
  pub get-add :
      (r : ProposalRecord) (s s' : Store Db) (k : String)
      → add database codec r s ≡ (s', returned r)
      → get database codec k s' ≡ (if r.id == k then returned (some r) else get database codec k s)
  unfolding add get
  get-add r s s' k h =
      let (db, e, same) = stored-returned r s s' (insert (record_to_row codec r) s.db) h in
      rw (same, database.find-insert s.db db (record_to_row codec r) k e, id-written r)
        (read_written_if (r.id == k) r (find s.db k))

  pub get-missing :
      (id : String) (s : Store Db) → find s.db id ≡ none → get database codec id s ≡ returned none
  unfolding get
  get-missing id s h = rw h

  unread :
      (x : Result ProposalRecord)
      → ◌≡◌ {A = Result (Option ProposalRecord)} (x >>= (λ r. returned (some r))) (returned none)
      → ⊥
  unread (returned r) h = cc
  unread (raised e) h = cc

  -- Where `get` finds nothing, there is no row.
  pub absent_of_get :
      (id : String) (s : Store Db) → get database codec id s ≡ returned none → find s.db id ≡ none
  unfolding get
  absent_of_get id s h = elim (Option-cases (find s.db id)) [
    | inl absent ↦ absent
    | inr (row, there) ↦ absurd (unread (row_to_record codec row) (rw there at h))
  ]

  pub found-row :
      (id : String) (s : Store Db) (r : ProposalRecord)
      → get database codec id s ≡ returned (some r)
      → is_some (find s.db id) ≡ true
  unfolding get
  found-row id s r e = elim (Option-cases (find s.db id)) [
    | inl absent ↦ cc (get-missing id s absent, e)
    | inr (row, there) ↦ rw there
  ]

  -- `add` leaves what is there, whether it returns or raises.
  pub get-add_kept :
      (id : String) (new now : ProposalRecord) (s : Store Db)
      → get database codec id s ≡ returned (some now)
      → get database codec id (add database codec new s).0 ≡ returned (some now)
  get-add_kept id new now s found = elim (Option-cases (find s.db new.id)) [
    | inr (old, taken) ↦ ap (get database codec id) ((add_total new s).1 old taken) ∙ found
    | inl free ↦
        let (s', e) = (add_total new s).0 free in
        ap (λ x. get database codec id x.0) e
        ∙ get-add new s s' id e
        ∙ elim (Bool-cases (new.id == id)) [
          | inl same ↦
              cc (get-missing id s (sym (ap (find s.db) ((eq_iff new.id id).0 same)) ∙ free), found)
          | inr other ↦ rw other found
        ]
  ]

  -- Every row can be read.
  pub record IsReadable (s : Store Db) : Type 0 where
    pub reads :
        (k : String) (row : Row)
        → find s.db k ≡ some row
        → (r : ProposalRecord) × (row_to_record codec row ≡ returned r)
