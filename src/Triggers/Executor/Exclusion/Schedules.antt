-- ===== src/Triggers/Executor/Exclusion/Schedules.antt =====
-- Schedules keep the lock discipline, and so an agent has one run at a time.
use saga_agents.Common.{
  ℕ, String, ◌≡◌, ◌≢◌, refl, ap, Bool, true, false, List, Option, none, some, arith, get_elem?,
  get_elem?-concat_cases, inl, inr, all,
}
use saga_agents.Triggers.Base.{RunRequest}
use saga_agents.Triggers.Lock.{LockService, ours, theirs, lock_key}
use saga_agents.Triggers.Executor.Induction.{Kept, run_induction}
use saga_agents.Triggers.Executor.{
  Settings, running, Task, Executor, Event, submits, expires, init, first_phase, step, run,
}
use saga_agents.Triggers.Executor.Exclusion.{
  token_of, lock_of, set_nx-keeps, compare_and_delete-keeps,
}
use saga_agents.Triggers.Executor.Exclusion.Steps.{
  IsExclusive, take_global-Exclusive, take_agent-Exclusive, after_set-Exclusive,
  after_run-Exclusive, after_eval-Exclusive, cancel-Exclusive,
}

-- The Redis keys of the run locks do not expire.
abbrev pub no_expiry : Event → Bool
no_expiry (expires a) = false
no_expiry _ = true

first_phase-idle :
    (c : Settings) (req : RunRequest)
    → (lock_of (first_phase c req) ≡ none)
      × (token_of (first_phase c req) ≡ none)
      × (first_phase c req ≢ running none)
unfolding first_phase
first_phase-idle c req = ground arith

module _ (redis : LockService) (c : Settings) (on : c.redis ≡ true) where
  open redis use {Store, peek}

  submits-Exclusive :
      (req : RunRequest) (s : Executor Store)
      → IsExclusive redis c on s
      → IsExclusive redis c on (step redis c (submits req) s)
  unfolding step
  submits-Exclusive req s x =
      let t : Task = record { req = req; phase = first_phase c req } in
      let (no_lock, no_token, not_bare) = first_phase-idle c req in
      record {
        owned = λ j u n h l. elim (get_elem?-concat_cases s.tasks j t u h) [
          | inl there ↦ x.owned j u n there l
          | inr e ↦ cc
        ];
        fresh = λ j u n h l. elim (get_elem?-concat_cases s.tasks j t u h) [
          | inl there ↦ x.fresh j u n there l
          | inr e ↦ cc
        ];
        unique = λ j k u v n h h' l l'. elim (get_elem?-concat_cases s.tasks j t u h) [
          | inl there ↦ elim (get_elem?-concat_cases s.tasks k t v h') [
            | inl there' ↦ x.unique j k u v n there there' l l'
            | inr e ↦ cc
          ]
          | inr e ↦ cc
        ];
        locked = λ j u h. elim (get_elem?-concat_cases s.tasks j t u h) [
          | inl there ↦ x.locked j u there
          | inr e ↦ rw e not_bare
        ];
      }

  -- Another process keeps what is ours.
  theirs-Exclusive :
      (locks : Store) (s : Executor Store)
      → ((j : String) (n : ℕ) → peek s.locks j ≡ some (ours n) → peek locks j ≡ some (ours n))
      → IsExclusive redis c on s
      → IsExclusive redis c on (record s { locks = locks })
  theirs-Exclusive locks s keeps x = record {
    owned = λ j u n h l. keeps _ n (x.owned j u n h l);
    fresh = x.fresh;
    unique = x.unique;
    locked = x.locked;
  }

  IsExclusive-Kept : Kept redis c no_expiry (IsExclusive redis c on)
  unfolding step
  IsExclusive-Kept = record {
    submit = submits-Exclusive;
    global = λ i t s at x. take_global-Exclusive redis c on i t s at x t.phase;
    agent = λ i t s at x. take_agent-Exclusive redis c on i t s at x t.phase refl;
    set = λ i d t s at ok x. after_set-Exclusive redis c on i t s at x t.phase d refl;
    end = λ i e t s at x. after_run-Exclusive redis c on i t s at x t.phase e refl;
    eval = λ i d t s at x. after_eval-Exclusive redis c on i t s at x t.phase d refl;
    cancelling = λ i d t s at x. cancel-Exclusive redis c on i t s at x t.phase d refl;
    expire = λ a s ok x. cc;
    other_set = λ a n s x.
        theirs-Exclusive _ s (λ j m h. set_nx-keeps redis s.locks _ j (theirs n) (ours m) h) x;
    other_eval = λ a n s x.
        theirs-Exclusive _ s
          (λ j m h. compare_and_delete-keeps redis s.locks _ j (theirs n) (ours m) refl h) x;
  }

  init-Exclusive : (locks : Store) → IsExclusive redis c on (init c locks)
  unfolding init
  init-Exclusive locks = record {
    owned = λ i t n h l. cc;
    fresh = λ i t n h l. cc;
    unique = λ i j t u n h h' l l'. cc;
    locked = λ i t h e. cc;
  }

  -- With Redis, and while no lock key expires: two runs in progress of one agent are one run, whatever
  -- its `max_concurrent_runs` says, in every state that a schedule reaches.
  pub one_run_per_agent :
      (es : List Event) (locks : Store) (i j : ℕ) (t u : Task) (m n : Option ℕ)
      → all no_expiry es ≡ true
      → get_elem? (run redis c es (init c locks)).tasks i ≡ some t
      → get_elem? (run redis c es (init c locks)).tasks j ≡ some u
      → t.phase ≡ running m
      → u.phase ≡ running n
      → t.req.agent_id ≡ u.req.agent_id
      → i ≡ j
  one_run_per_agent es locks i j t u (some m) (some n) ok at there r r' same =
      let x = run_induction redis c IsExclusive-Kept es (init c locks) ok (init-Exclusive locks) in
      let mine = x.owned i t m at (rw r refl) in
      let theirs' = x.owned j u n there (rw r' refl) in
      x.unique i j t u m at there (rw r refl) (cc (mine, theirs', ap lock_key same))
  one_run_per_agent es locks i j t u none n ok at there r r' same =
      let x = run_induction redis c IsExclusive-Kept es (init c locks) ok (init-Exclusive locks) in
      absurd (x.locked i t at r)
  one_run_per_agent es locks i j t u (some m) none ok at there r r' same =
      let x = run_induction redis c IsExclusive-Kept es (init c locks) ok (init-Exclusive locks) in
      absurd (x.locked j u there r')
