-- ===== src/Triggers/Api/History.antt =====
-- The life of the proposals over any sequence of additions, approvals and rejections that do not overlap.
pub mod Decisions
pub mod Transitions
mod Tests
use saga_agents.Common.{
  ℕ, String, ◌==◌, eq_iff, ◌≡◌, ◌∙◌, refl, sym, ap, Bool, true, false, List, [], ◌∷◌, ◌++◌, Option,
  none, some, arith, inl, inr, ◌⊎◌, Bool-cases, Option-cases, length, length-concat, tally,
  tally-concat, one_if, ◌||◌,
}
use saga_agents.Common.Json.{Json}
use saga_agents.Common.Result.{Result, returned, raised, ◌>>=◌}
use saga_agents.Proposals.Database.{Database, Codec, is_some}
use saga_agents.Proposals.Store.{
  ProposalStatus, pending, applied, rejected, failed, ProposalRecord, Store, status_text, get, add,
  set_status, stored, record_to_row,
}
use saga_agents.Proposals.Store.Readable.{IsReadable, add_total, get-add}
use saga_agents.Proposals.Store.Updates.{
  get-set_status, decided, set_status-IsReadable, add-IsReadable, transitions-set_status,
}
use saga_agents.Triggers.Api.{
  guarded, Reply, ToolCall, Api, is_pending, pending_or_404, find_pending, apply_proposal,
  after_call, after_check, approve_found, reject_found, approve_proposal, reject_proposal,
  verify_token,
}
use saga_agents.Triggers.Api.Approval.{outcome_status, outcome_error, IsSettled}

-- What reaches the store: a request with its Authorization header, where an approval comes with what
-- the tool answers; or a proposal that a run adds.
pub data Request (Value : Type 0) : Type 0 where
  approves : Option String → String → (ToolCall → Result Value) → Request Value
  rejects : Option String → String → Request Value
  proposes : ProposalRecord → Request Value

found-pending :
    (id : String) (found : Option ProposalRecord) (r : ProposalRecord)
    → pending_or_404 id found ≡ inl r
    → (found ≡ some r) × (is_pending r.status ≡ true)
found-pending id none r h = cc
found-pending id (some x) r h = elim (Bool-cases (is_pending x.status)) [
  | inl waits ↦ let same : x ≡ r = ground arith in ground arith
  | inr settled ↦ ground arith
]

module _ (database : Database) (codec : Codec) {Value : Type 0} (encode : Value → Result Json)
    (show : Value → String) (token : String) where
  open database use {Db, find}

  abbrev pub added : ProposalRecord → Option (Store Db) → Option (Store Db)
  added r none = none
  added r (some s) = some ((add database codec r s).0)

  abbrev pub handle : Request Value → Api Db → Api Db
  handle (approves authorization id call) a =
      (approve_proposal database codec encode show token (some call) authorization id a).0
  handle (rejects authorization id) a = (reject_proposal database codec token authorization id a).0
  handle (proposes r) a = record a { store = added r a.store }

  unfoldable pub serve : List (Request Value) → Api Db → Api Db
  serve [] a = a
  serve (e ∷ es) a = serve es (handle e a)

  -- What is to be shown of each change of the store, with the tool calls made so far.
  pub record Kept (P : Store Db → List ToolCall → Type 0) : Type 0 where
    pub approval :
        (id : String) (r : ProposalRecord) (o : Result Value) (s : Store Db) (calls : List ToolCall)
        → get database codec id s ≡ returned (some r)
        → is_pending r.status ≡ true
        → P s calls
        → P
            (set_status database id (status_text (outcome_status o)) (outcome_error o) s)
            (calls ++ apply_proposal r ∷ [])
    pub rejection :
        (id : String) (r : ProposalRecord) (s : Store Db) (calls : List ToolCall)
        → get database codec id s ≡ returned (some r)
        → is_pending r.status ≡ true
        → P s calls
        → P (set_status database id (status_text rejected) none s) calls
    pub addition :
        (r : ProposalRecord) (s : Store Db) (calls : List ToolCall)
        → P s calls
        → P (add database codec r s).0 calls

  abbrev api : Store Db → List ToolCall → Api Db
  api s calls = record { store = some s; calls = calls }

  -- There is a store, and the property holds of it.
  abbrev HoldsOf : (Store Db → List ToolCall → Type 0) → Option (Store Db) → List ToolCall → Type 0
  HoldsOf P none calls = ⊥
  HoldsOf P (some s) calls = P s calls

  bound :
      (id : String) (r : ProposalRecord) (g : Result (Option ProposalRecord))
      → (g >>= (λ found. returned (pending_or_404 id found))) ≡ returned (inl r)
      → (g ≡ returned (some r)) × (is_pending r.status ≡ true)
  bound id r (raised e) h = cc
  bound id r (returned found) h =
      let (same, waits) = found-pending id found r (cc) in (ap returned same, waits)

  abbrev pub HoldsAt : (Store Db → List ToolCall → Type 0) → Api Db → Type 0
  HoldsAt P a = HoldsOf P a.store a.calls

  pub store_of :
      (P : Store Db → List ToolCall → Type 0) (store : Option (Store Db)) (calls : List ToolCall)
      → HoldsOf P store calls
      → (s : Store Db) × (store ≡ some s) × P s calls
  store_of P none calls p = elim p [ ]
  store_of P (some s) calls p = (s, refl, p)

  found_pending :
      (id : String) (s : Store Db) (r : ProposalRecord)
      → find_pending database codec id s ≡ returned (inl r)
      → (get database codec id s ≡ returned (some r)) × (is_pending r.status ≡ true)
  unfolding find_pending
  found_pending id s r h = bound id r (get database codec id s) h

  module _ {P : Store Db → List ToolCall → Type 0} (k : Kept P) where
    called :
        (id : String) (r : ProposalRecord) (o : Result Value) (s : Store Db) (calls : List ToolCall)
        → get database codec id s ≡ returned (some r)
        → is_pending r.status ≡ true
        → P s calls
        → P (after_call database codec encode show id o s).0 (calls ++ apply_proposal r ∷ [])
    unfolding after_call
    called id r (returned v) s calls e waits p = k.approval id r (returned v) s calls e waits p
    called id r (raised x) s calls e waits p = k.approval id r (raised x) s calls e waits p

    approved-Kept :
        (call : ToolCall → Result Value) (id : String) (s : Store Db) (calls : List ToolCall)
        (x : Result (ProposalRecord ⊎ Reply))
        → find_pending database codec id s ≡ x
        → P s calls
        → HoldsAt P (approve_found database codec encode show call id s (api s calls) x).0
    approved-Kept call id s calls (raised e) h p = p
    approved-Kept call id s calls (returned (inr reply)) h p = p
    approved-Kept call id s calls (returned (inl r)) h p =
        let (e, waits) = found_pending id s r h in
        called id r (call (apply_proposal r)) s calls e waits p

    rejected-Kept :
        (id : String) (s : Store Db) (calls : List ToolCall) (x : Result (ProposalRecord ⊎ Reply))
        → find_pending database codec id s ≡ x
        → P s calls
        → HoldsAt P (reject_found database codec id s (api s calls) x).0
    unfolding after_check
    rejected-Kept id s calls (raised e) h p = p
    rejected-Kept id s calls (returned (inr reply)) h p = p
    rejected-Kept id s calls (returned (inl r)) h p =
        let (e, waits) = found_pending id s r h in k.rejection id r s calls e waits p

    guarded-Kept :
        (b : Bool) (a : Api Db) (handled : Api Db × Result Reply)
        → HoldsAt P a
        → HoldsAt P handled.0
        → HoldsAt P (guarded b a handled).0
    guarded-Kept true a handled p h = h
    guarded-Kept false a handled p h = p

    approve_proposal-Kept :
        (authorization : Option String) (id : String) (call : ToolCall → Result Value)
        (st : Option (Store Db)) (calls : List ToolCall)
        → HoldsOf P st calls
        → HoldsAt P (handle (approves authorization id call) (record { store = st; calls = calls }))
    unfolding approve_proposal
    approve_proposal-Kept authorization id call none calls p =
        guarded-Kept (verify_token token authorization) (record { store = none; calls = calls }) _ p
          p
    approve_proposal-Kept authorization id call (some s) calls p =
        guarded-Kept (verify_token token authorization) (api s calls) _ p
          (approved-Kept call id s calls _ refl p)

    reject_proposal-Kept :
        (authorization : Option String) (id : String) (st : Option (Store Db))
        (calls : List ToolCall)
        → HoldsOf P st calls
        → HoldsAt P (handle (rejects authorization id) (record { store = st; calls = calls }))
    unfolding reject_proposal
    reject_proposal-Kept authorization id none calls p =
        guarded-Kept (verify_token token authorization) (record { store = none; calls = calls }) _ p
          p
    reject_proposal-Kept authorization id (some s) calls p =
        guarded-Kept (verify_token token authorization) (api s calls) _ p
          (rejected-Kept id s calls _ refl p)

    added-Kept :
        (r : ProposalRecord) (st : Option (Store Db)) (calls : List ToolCall)
        → HoldsOf P st calls
        → HoldsOf P (added r st) calls
    added-Kept r none calls p = p
    added-Kept r (some s) calls p = k.addition r s calls p

    handle-Kept : (e : Request Value) (a : Api Db) → HoldsAt P a → HoldsAt P (handle e a)
    handle-Kept (approves authorization id call) a p =
        approve_proposal-Kept authorization id call a.store a.calls p
    handle-Kept (rejects authorization id) a p =
        reject_proposal-Kept authorization id a.store a.calls p
    handle-Kept (proposes r) a p = added-Kept r a.store a.calls p

    pub serve-Kept : (es : List (Request Value)) (a : Api Db) → HoldsAt P a → HoldsAt P (serve es a)
    unfolding serve
    serve-Kept [] a p = p
    serve-Kept (e ∷ es) a p = serve-Kept es (handle e a) (handle-Kept e a p)
