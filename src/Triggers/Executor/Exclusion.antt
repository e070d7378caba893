-- ===== src/Triggers/Executor/Exclusion.antt =====
-- The Redis lock: while no lock expires, one agent has one run at a time, whatever its limits say
-- and whatever the other processes do.
pub mod Steps
pub mod Schedules
use saga_agents.Common.{
  ℕ, suc, ◌+◌, ◌<◌, ◌≤◌, String, ◌==◌, eq_iff, ◌≡◌, ◌≢◌, refl, sym, ◌∙◌, ap, Bool, true, false, not,
  List, [], ◌∷◌, ◌++◌, Option, none, some, arith, get_elem?, set, get_elem?-set_cases,
  get_elem?-concat_cases, Bool-cases, Option-cases, inl, inr, ◌⊎◌, all, if◌then◌else◌,
}
use saga_agents.Triggers.Base.{RunRequest}
use saga_agents.Triggers.Lock.{
  LockService, Token, ours, theirs, lock_key, holds_token, token_eq, compare_and_delete,
}
use saga_agents.Triggers.Executor.Induction.{Kept, run_induction}
use saga_agents.Triggers.Executor.{
  Settings, Outcome, Phase, waits_global, waits_agent, setting, running, releasing, ended, Task,
  Executor, Delivery, answered, lost_request, lost_reply, RunEnd, returns, raises, Event, submits,
  expires, others_set, others_eval, init, first_phase, leave, start, finish, after_run, take_global,
  take_agent, after_set, after_eval, step, run, skipped_redis_lock, raised, reported, failed,
}

-- The lock token that a task has drawn, and the one that it has set.
abbrev pub token_of : Phase → Option ℕ
token_of (setting n) = some n
token_of (running token) = token
token_of (releasing n end) = some n
token_of _ = none

abbrev pub lock_of : Phase → Option ℕ
lock_of (running token) = token
lock_of (releasing n end) = some n
lock_of _ = none

module _ (redis : LockService) where
  open redis use {Store, peek, set_nx, del}

  -- Tokens are drawn once, and whoever set a lock finds its token there.
  pub record Exclusive (locks : Store) (uuids : ℕ) (tasks : List Task) : Type 0 where
    pub owned :
        (i : ℕ) (t : Task) (n : ℕ)
        → get_elem? tasks i ≡ some t
        → lock_of t.phase ≡ some n
        → peek locks (lock_key t.req.agent_id) ≡ some (ours n)
    pub fresh :
        (i : ℕ) (t : Task) (n : ℕ)
        → get_elem? tasks i ≡ some t
        → token_of t.phase ≡ some n
        → n < uuids
    pub unique :
        (i j : ℕ) (t u : Task) (n : ℕ)
        → get_elem? tasks i ≡ some t
        → get_elem? tasks j ≡ some u
        → token_of t.phase ≡ some n
        → token_of u.phase ≡ some n
        → i ≡ j
    pub locked : (i : ℕ) (t : Task) → get_elem? tasks i ≡ some t → t.phase ≢ running none

  -- What a command of another owner leaves alone.
  set_nx-keeps :
      (locks : Store) (k j : String) (t u : Token)
      → peek locks j ≡ some u
      → peek (set_nx locks k t).0 j ≡ some u
  set_nx-keeps locks k j t u h = elim (Option-cases (peek locks k)) [
    | inl e ↦ ground (arith, redis.peek-set_nx_free locks k t j e, eq_iff k j)
    | inr (v, e) ↦ redis.peek-set_nx_taken locks k t v j e ∙ h
  ]

  compare_and_delete-keeps :
      (locks : Store) (k j : String) (t u : Token)
      → token_eq u t ≡ false
      → peek locks j ≡ some u
      → peek (compare_and_delete redis locks k t) j ≡ some u
  unfolding compare_and_delete
  compare_and_delete-keeps locks k j t u ne h = elim (Bool-cases (holds_token (peek locks k) t)) [
    | inl mine ↦ rw mine (ground (arith, redis.peek-del locks k j, eq_iff k j))
    | inr other ↦ rw other h
  ]

  set_nx_sets :
      (locks : Store) (k : String) (t : Token)
      → (set_nx locks k t).1 ≡ true
      → (peek locks k ≡ none) × (peek (set_nx locks k t).0 k ≡ some t)
  set_nx_sets locks k t got = elim (Option-cases (peek locks k)) [
    | inl e ↦ (e, ground (arith, redis.peek-set_nx_free locks k t k e, eq_iff k k))
    | inr (v, e) ↦ cc (redis.set_nx_taken locks k t v e)
  ]

  lock-token : (p : Phase) (n : ℕ) → lock_of p ≡ some n → token_of p ≡ some n
  lock-token p n h = ground arith

  -- Two tasks that hold a token and are not one task hold two tokens.
  module _ (locks : Store) (uuids : ℕ) (tasks : List Task) (x : Exclusive locks uuids tasks) (i : ℕ)
      (t : Task) (at : get_elem? tasks i ≡ some t) where
    -- Task `i` goes to another phase, and the locks and the count of tokens change with it.
    module _ (p : Phase) (locks' : Store) (uuids' : ℕ)
        (others : (j : ℕ) (u : Task) (n : ℕ)
          → i ≢ j
          → get_elem? tasks j ≡ some u
          → lock_of u.phase ≡ some n
          → peek locks' (lock_key u.req.agent_id) ≡ some (ours n))
        (own : (n : ℕ) → lock_of p ≡ some n → peek locks' (lock_key t.req.agent_id) ≡ some (ours n))
        (drawn : (n : ℕ)
          → token_of p ≡ some n
          → (token_of t.phase ≡ some n) ⊎ ((n ≡ uuids) × (uuids < uuids')))
        (grows : uuids ≤ uuids') (bare : p ≢ running none) where
      cases :
          (j : ℕ) (u : Task)
          → get_elem? (set tasks i (record t { phase = p })) j ≡ some u
          → ((i ≡ j) × (u ≡ record t { phase = p })) ⊎ ((i ≢ j) × (get_elem? tasks j ≡ some u))
      cases j u h = get_elem?-set_cases tasks i j t (record t { phase = p }) u at h

      -- A token in the new list was there at that place, or it is the one just drawn for `i`.
      token_cases :
          (j : ℕ) (u : Task) (n : ℕ)
          → get_elem? (set tasks i (record t { phase = p })) j ≡ some u
          → token_of u.phase ≡ some n
          → ((v : Task) × (get_elem? tasks j ≡ some v) × (token_of v.phase ≡ some n))
            ⊎ ((i ≡ j) × (n ≡ uuids) × (uuids < uuids'))
      token_cases j u n h l = elim (cases j u h) [
        | inl (here, e) ↦ elim (drawn n (cc)) [
          | inl old ↦ inl (t, cc, old)
          | inr new ↦ inr (here, new.0, new.1)
        ]
        | inr (ne, there) ↦ inl (u, there, l)
      ]

      unique_cases :
          (j k : ℕ) (u v : Task) (n : ℕ)
          → get_elem? (set tasks i (record t { phase = p })) j ≡ some u
          → get_elem? (set tasks i (record t { phase = p })) k ≡ some v
          → token_of u.phase ≡ some n
          → token_of v.phase ≡ some n
          → j ≡ k
      unique_cases j k u v n h h' l l' = elim (token_cases j u n h l) [
        | inl (a, b, c) ↦ elim (token_cases k v n h' l') [
          | inl (a', b', c') ↦ x.unique j k a a' n b b' c c'
          | inr (here, new, less) ↦ absurd (omega (arith, x.fresh j a n b c))
        ]
        | inr (here, new, less) ↦ elim (token_cases k v n h' l') [
          | inl (a', b', c') ↦ absurd (omega (arith, x.fresh k a' n b' c'))
          | inr (here', new', less') ↦ sym here ∙ here'
        ]
      ]

      moved-Exclusive : Exclusive locks' uuids' (set tasks i (record t { phase = p }))
      moved-Exclusive = record {
        owned = λ j u n h l. elim (cases j u h) [
          | inl (here, e) ↦ rw e (own n (rw e at l))
          | inr (ne, there) ↦ others j u n ne there l
        ];
        fresh = λ j u n h l. elim (token_cases j u n h l) [
          | inl (v, there, old) ↦ omega (arith, x.fresh j v n there old)
          | inr (here, new, less) ↦ omega arith
        ];
        unique = unique_cases;
        locked = λ j u h. elim (cases j u h) [
          | inl (here, e) ↦ rw e bare
          | inr (ne, there) ↦ x.locked j u there
        ];
      }

    -- Task `i` goes on, and no lock is its concern.
    idle-Exclusive :
        (p : Phase) (locks' : Store)
        → lock_of p ≡ none
        → token_of p ≡ none
        → p ≢ running none
        → ((j : String) (u : Token) → peek locks j ≡ some u → peek locks' j ≡ some u)
        → Exclusive locks' uuids (set tasks i (record t { phase = p }))
    idle-Exclusive p locks' l k bare keeps =
        moved-Exclusive p locks' uuids (λ j u n ne there h. keeps _ _ (x.owned j u n there h))
          (λ n h. cc) (λ n h. cc) (omega arith) bare
