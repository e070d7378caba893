-- ===== src/Proposals/Store/Refinement.antt =====
-- SqliteProposalStore against what it promises: a table of proposals by id, and a list of the status
-- changes of those that are there.
use saga_agents.Common.{
  String, ◌==◌, eq_iff, ◌≡◌, ◌∙◌, refl, sym, ap, List, [], ◌∷◌, ◌++◌, Option, none, some,
  if◌then◌else◌, Bool-cases, inl, inr,
}
use saga_agents.Common.Result.{returned}
use saga_agents.Proposals.Database.{Database, Codec}
use saga_agents.Proposals.Store.{
  ProposalStatus, ProposalRecord, Store, status_text, get, add, set_status,
}
use saga_agents.Proposals.Store.Readable.{IsReadable, add_total, get-add, absent_of_get, found-row}
use saga_agents.Proposals.Store.Listing.{row_of_get}
use saga_agents.Proposals.Store.Updates.{
  decided, get-set_status, set_status-IsReadable, add-IsReadable, transitions-set_status,
  add-transitions,
}

-- What a caller can do to the store.
pub data Operation : Type 0 where
  adds : ProposalRecord → Operation
  decides : String → ProposalStatus → Option String → Operation

pub record Table : Type 0 where
  pub proposals : String → Option ProposalRecord
  pub changes : List String

-- The operations on the table: an id is given once, and a decision changes what is there.
abbrev pub put : ProposalRecord → Option ProposalRecord → Table → Table
put r none t = record t { proposals = λ k. if r.id == k then some r else t.proposals k }
put r (some old) t = t

abbrev pub change : String → ProposalStatus → Option String → Option ProposalRecord → Table → Table
change id status error none t = t
change id status error (some old) t = record {
  proposals = λ k. if id == k then some (decided status error old) else t.proposals k;
  changes = t.changes ++ status_text status ∷ [];
}

unfoldable pub in_table : List Operation → Table → Table
in_table [] t = t
in_table (adds r ∷ ops) t = in_table ops (put r (t.proposals r.id) t)
in_table (decides id status error ∷ ops) t =
    in_table ops (change id status error (t.proposals id) t)

module _ (database : Database) (codec : Codec) where
  open database use {Db, find}

  unfoldable pub in_store : List Operation → Store Db → Store Db
  in_store [] s = s
  in_store (adds r ∷ ops) s = in_store ops (add database codec r s).0
  in_store (decides id status error ∷ ops) s =
      in_store ops (set_status database id (status_text status) error s)

  -- The store shows this table.
  pub record Shows (s : Store Db) (t : Table) : Type 0 where
    pub readable : IsReadable database codec s
    pub found : (k : String) → get database codec k s ≡ returned (t.proposals k)
    pub counted : s.transitions ≡ t.changes

  module _ (s : Store Db) (t : Table) (shows : Shows s t) where
    added-found :
        (r : ProposalRecord) (k : String) (o : Option ProposalRecord)
        → t.proposals r.id ≡ o
        → get database codec k (add database codec r s).0 ≡ returned ((put r o t).proposals k)
    added-found r k none e =
        let absent = absent_of_get database codec r.id s (shows.found r.id ∙ ap returned e) in
        let (s', stored) = (add_total database codec r s).0 absent in
        ap (λ x. get database codec k x.0) stored
        ∙ get-add database codec r s s' k stored
        ∙ elim (Bool-cases (r.id == k)) [
          | inl same ↦ rw same
          | inr other ↦ rw other (shows.found k)
        ]
    added-found r k (some old) e =
        let (row, there, rest) =
          row_of_get database codec r.id s old (shows.found r.id ∙ ap returned e) in
        ap (get database codec k) ((add_total database codec r s).1 row there) ∙ shows.found k

    added-counted :
        (r : ProposalRecord) (o : Option ProposalRecord) → (put r o t).changes ≡ t.changes
    added-counted r none = refl
    added-counted r (some old) = refl

    add-Shows : (r : ProposalRecord) → Shows (add database codec r s).0 (put r (t.proposals r.id) t)
    add-Shows r = record {
      readable = add-IsReadable database codec r s shows.readable;
      found = λ k. added-found r k (t.proposals r.id) refl;
      counted =
          add-transitions database codec r s
          ∙ shows.counted
          ∙ sym (added-counted r (t.proposals r.id));
    }

    changed-found :
        (id k : String) (status : ProposalStatus) (error : Option String)
        (o : Option ProposalRecord)
        → t.proposals id ≡ o
        → get database codec k (set_status database id (status_text status) error s)
          ≡ returned ((change id status error o t).proposals k)
    changed-found id k status error none e =
        get-set_status database codec id status error s k shows.readable
        ∙ elim (Bool-cases (id == k)) [
          | inl same ↦
              let absent : t.proposals k ≡ none = ap t.proposals (sym ((eq_iff id k).0 same)) ∙ e in
              rw (same, shows.found k, absent) refl
          | inr other ↦ rw other (shows.found k)
        ]
    changed-found id k status error (some old) e =
        get-set_status database codec id status error s k shows.readable
        ∙ elim (Bool-cases (id == k)) [
          | inl same ↦
              let there : t.proposals k ≡ some old =
                ap t.proposals (sym ((eq_iff id k).0 same)) ∙ e in
              rw (same, shows.found k, there) refl
          | inr other ↦ rw other (shows.found k)
        ]

    changed-counted :
        (id : String) (status : ProposalStatus) (error : Option String) (o : Option ProposalRecord)
        → t.proposals id ≡ o
        → (set_status database id (status_text status) error s).transitions
          ≡ (change id status error o t).changes
    changed-counted id status error none e =
        let absent = absent_of_get database codec id s (shows.found id ∙ ap returned e) in
        transitions-set_status database codec id (status_text status) error s
        ∙ rw absent shows.counted
    changed-counted id status error (some old) e =
        transitions-set_status database codec id (status_text status) error s
        ∙ rw (found-row database codec id s old (shows.found id ∙ ap returned e), shows.counted)
            refl

    set_status-Shows :
        (id : String) (status : ProposalStatus) (error : Option String)
        → Shows
            (set_status database id (status_text status) error s)
            (change id status error (t.proposals id) t)
    set_status-Shows id status error = record {
      readable = set_status-IsReadable database codec id status error s shows.readable;
      found = λ k. changed-found id k status error (t.proposals id) refl;
      counted = changed-counted id status error (t.proposals id) refl;
    }

  -- After any additions and status changes, the store shows what the table of proposals has become
  -- under the same operations, if it showed the table before: `get` of every id returns the proposal in
  -- the table or none, and AGENT_PROPOSALS has counted the changes of those that were there. In the
  -- table, an id is given once: adding it again changes nothing; a status change touches its own id, and
  -- there the status and the error alone.
  pub in_store-Shows :
      (ops : List Operation) (s : Store Db) (t : Table)
      → Shows s t
      → Shows (in_store ops s) (in_table ops t)
  unfolding in_store in_table
  in_store-Shows [] s t shows = shows
  in_store-Shows (adds r ∷ ops) s t shows = in_store-Shows ops _ _ (add-Shows s t shows r)
  in_store-Shows (decides id status error ∷ ops) s t shows =
      in_store-Shows ops _ _ (set_status-Shows s t shows id status error)
