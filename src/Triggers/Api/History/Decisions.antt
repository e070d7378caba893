-- ===== src/Triggers/Api/History/Decisions.antt =====
-- What a sequence of requests can make of a proposal.
use saga_agents.Common.{
  String, ◌==◌, eq_iff, ◌≡◌, ◌∙◌, refl, sym, ap, true, false, List, Option, none, some, inl, inr,
  ◌⊎◌, Bool-cases,
}
use saga_agents.Common.Json.{Json}
use saga_agents.Common.Result.{Result, returned, raised}
use saga_agents.Proposals.Database.{Database, Codec}
use saga_agents.Proposals.Store.{
  ProposalStatus, rejected, ProposalRecord, Store, status_text, get, set_status,
}
use saga_agents.Proposals.Store.Readable.{IsReadable, get-add_kept}
use saga_agents.Proposals.Store.Updates.{
  get-set_status, decided, set_status-IsReadable, add-IsReadable,
}
use saga_agents.Triggers.Api.{ToolCall, Api, is_pending}
use saga_agents.Triggers.Api.Approval.{outcome_status, outcome_error}
use saga_agents.Triggers.Api.History.{Request, serve, Kept, serve-Kept, store_of}

-- What has become of a proposal: it is as it was, or it was pending and has been decided, which
-- changes its status and its error alone.
abbrev pub Since : ProposalRecord → ProposalRecord → Type 0
Since r now =
    (now ≡ r)
    ⊎ ((status : ProposalStatus) × (error : Option String) × (is_pending r.status ≡ true)
        × (is_pending status ≡ false)
        × (now ≡ decided status error r))

module _ (database : Database) (codec : Codec) where
  open database use {Db}

  abbrev pub Stays : String → ProposalRecord → Store Db → Type 0
  Stays id r s =
      (now : ProposalRecord) × IsReadable database codec s
      × (get database codec id s ≡ returned (some now))
      × Since r now

module _ (database : Database) (codec : Codec) {Value : Type 0} (encode : Value → Result Json)
    (show : Value → String) (token : String) where
  open database use {Db, find}

  module _ (id : String) (r : ProposalRecord) where
    decide-Since :
        (now : ProposalRecord) (status : ProposalStatus) (error : Option String)
        → is_pending now.status ≡ true
        → is_pending status ≡ false
        → Since r now
        → Since r (decided status error now)
    decide-Since now status error waits settles (inl same) = inr (
      status,
      error,
      ap (λ x. is_pending x.status) (sym same) ∙ waits,
      settles,
      ap (decided status error) same,
    )
    decide-Since now status error waits settles (inr (before, e, was, settled, same)) = cc

    set_status-Stays :
        (k : String) (x : ProposalRecord) (status : ProposalStatus) (error : Option String)
        (s : Store Db)
        → get database codec k s ≡ returned (some x)
        → is_pending x.status ≡ true
        → is_pending status ≡ false
        → Stays database codec id r s
        → Stays database codec id r (set_status database k (status_text status) error s)
    set_status-Stays k x status error s e waits settles (now, readable, found, since) =
        let readable' = set_status-IsReadable database codec k status error s readable in
        elim (Bool-cases (k == id)) [
          | inl same ↦
              let both = ap (λ j. get database codec j s) ((eq_iff k id).0 same) in
              let equal : x ≡ now = cc (e, found, both) in
              (
                decided status error now,
                readable',
                get-set_status database codec k status error s id readable ∙ rw (same, found),
                decide-Since now status error (cc (equal, waits)) settles since,
              )
          | inr other ↦ (
            now,
            readable',
            get-set_status database codec k status error s id readable ∙ rw other found,
            since,
          )
        ]

    outcome-settles : (o : Result Value) → is_pending (outcome_status o) ≡ false
    outcome-settles (returned v) = refl
    outcome-settles (raised e) = refl

    Stays-Kept : Kept database codec encode show token (λ s calls. Stays database codec id r s)
    Stays-Kept = record {
      approval = λ k x o s calls e waits p.
          set_status-Stays k x (outcome_status o) (outcome_error o) s e waits (outcome-settles o) p;
      rejection = λ k x s calls e waits p. set_status-Stays k x rejected none s e waits refl p;
      addition = λ new s calls p. (
        p.0,
        add-IsReadable database codec new s p.1,
        get-add_kept database codec id new p.0 s p.2,
        p.3,
      );
    }

    -- Whatever is proposed, approved and rejected, with a right token or a wrong one, and whatever the
    -- tool answers, where the requests do not overlap and every row could be read: a proposal can be
    -- found ever after, and either it is as it was, or it was pending, has been decided, and only its
    -- status and its error have changed. So a decided proposal stays as it is, and no request changes
    -- what a proposal asks for.
    pub serve-Stays :
        (es : List (Request Value)) (s : Store Db) (calls : List ToolCall)
        → IsReadable database codec s
        → get database codec id s ≡ returned (some r)
        → (s' : Store Db) × ((serve database codec encode show token es
              (record { store = some s; calls = calls })).store
            ≡ some s')
          × Stays database codec id r s'
    serve-Stays es s calls readable found =
        let a : Api Db =
          serve database codec encode show token es (record { store = some s; calls = calls }) in
        store_of database codec encode show token (λ s calls. Stays database codec id r s) a.store
          a.calls
          (serve-Kept database codec encode show token Stays-Kept es
            (record { store = some s; calls = calls }) (r, readable, found, inl refl))
