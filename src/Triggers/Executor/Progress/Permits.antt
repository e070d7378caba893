-- ===== src/Triggers/Executor/Progress/Permits.antt =====
-- No deadlock: while a submit is not over, one of them can go on.
use saga_agents.Common.{
  ℕ, ◌+◌, ◌≡◌, refl, Bool, false, not, ◌&&◌, none, some, arith, get_elem?, set, tally, tally-set,
  tally-concat, tally-nil, tally-zero_at, Bool-cases, one_if, inl, inr,
}
use saga_agents.Common.Dict.{lookup}
use saga_agents.Triggers.Base.{RunRequest}
use saga_agents.Triggers.Lock.{LockService, ours, lock_key}
use saga_agents.Triggers.Executor.{
  Settings, Phase, waits_global, waits_agent, setting, running, releasing, ended, Task, Executor,
  Delivery, answered, lost_request, lost_reply, RunEnd, returns, raises, reported, failed, raised,
  skipped_redis_lock, submits, is_enabled, init, first_phase, after_run, take_global, take_agent,
  after_set, after_eval, cancel, cancels, cancelled, interrupted, step,
}
use saga_agents.Triggers.Executor.Induction.{Kept, any_event}
use saga_agents.Triggers.Executor.Safety.{has_ended}

-- Not over, and of an agent that is unknown or disabled: there is none.
abbrev stray_in : Settings → RunRequest → Phase → Bool
stray_in c req p = not (has_ended p) && not (is_enabled (lookup req.agent_id c.definitions))

abbrev pub stray : Settings → Task → Bool
stray c t = stray_in c t.req t.phase

abbrev pub NoStray : {Store : Type 0} → Settings → Executor Store → Type 0
NoStray c s = tally (stray c) s.tasks ≡ 0

module _ {Store : Type 0} (c : Settings) (i : ℕ) (t : Task) (s : Executor Store)
    (at : get_elem? s.tasks i ≡ some t) (k : NoStray c s) where
  put :
      (p : Phase)
      → tally (stray c) (set s.tasks i (record t { phase = p })) + one_if (stray c t)
        ≡ tally (stray c) s.tasks + one_if (stray_in c t.req p)
  put p = tally-set (stray c) s.tasks i t (record t { phase = p }) at

  -- A submit that is not over goes to another phase.
  moves :
      (p : Phase)
      → has_ended t.phase ≡ false
      → tally (stray c) (set s.tasks i (record t { phase = p })) ≡ 0
  moves p waits =
      let was = tally-zero_at (stray c) s.tasks i t k at in let moved = put p in ground arith

  take_global-NoStray : (p : Phase) → t.phase ≡ p → NoStray c (take_global i t p s)
  unfolding take_global
  take_global-NoStray waits_global e = ground (arith, moves waits_agent)
  take_global-NoStray _ e = k

  take_agent-NoStray : (p : Phase) → t.phase ≡ p → NoStray c (take_agent c i t p s)
  unfolding take_agent
  take_agent-NoStray waits_agent e = ground (arith, moves (setting s.uuids), moves (running none))
  take_agent-NoStray _ e = k

  after_run-NoStray : (p : Phase) (end : RunEnd) → t.phase ≡ p → NoStray c (after_run i t p end s)
  unfolding after_run
  after_run-NoStray (running none) (returns status) e =
      ground (arith, moves (ended (reported status)))
  after_run-NoStray (running none) raises e = ground (arith, moves (ended failed))
  after_run-NoStray (running none) cancels e = ground (arith, moves (ended (interrupted cancels)))
  after_run-NoStray (running (some n)) end e = ground (arith, moves (releasing n end))
  after_run-NoStray _ end e = k

module _ (redis : LockService) (c : Settings) where
  open redis use {Store, set_nx}

  module _ (i : ℕ) (t : Task) (s : Executor Store) (at : get_elem? s.tasks i ≡ some t)
      (k : NoStray c s) where
    after_set-NoStray :
        (p : Phase) (d : Delivery) → t.phase ≡ p → NoStray c (after_set redis i t p d s)
    unfolding after_set
    after_set-NoStray (setting n) answered e =
        let (locks, acquired) = set_nx s.locks (lock_key t.req.agent_id) (ours n) in
        elim (Bool-cases acquired) [
          | inl got ↦ rw got (ground (arith, moves c i t s at k (running (some n))))
          | inr missed ↦ rw missed (ground (arith, moves c i t s at k (ended skipped_redis_lock)))
        ]
    after_set-NoStray (setting n) lost_request e = ground (arith, moves c i t s at k (ended raised))
    after_set-NoStray (setting n) lost_reply e = ground (arith, moves c i t s at k (ended raised))
    after_set-NoStray _ d e = k

    after_eval-NoStray :
        (p : Phase) (d : Delivery) → t.phase ≡ p → NoStray c (after_eval redis i t p d s)
    unfolding after_eval
    after_eval-NoStray (releasing n (returns status)) d e =
        ground (arith, moves c i t s at k (ended (reported status)))
    after_eval-NoStray (releasing n raises) d e = ground (arith, moves c i t s at k (ended failed))
    after_eval-NoStray (releasing n cancels) d e =
        ground (arith, moves c i t s at k (ended (interrupted cancels)))
    after_eval-NoStray _ d e = k

    cancel-NoStray : (p : Phase) (d : Delivery) → t.phase ≡ p → NoStray c (cancel redis i t p d s)
    unfolding cancel
    cancel-NoStray waits_global d e = ground (arith, moves c i t s at k (ended cancelled))
    cancel-NoStray waits_agent d e = ground (arith, moves c i t s at k (ended cancelled))
    cancel-NoStray (setting n) lost_request e = ground (arith, moves c i t s at k (ended cancelled))
    cancel-NoStray (setting n) _ e = ground (arith, moves c i t s at k (ended cancelled))
    cancel-NoStray (running token) d e = after_run-NoStray c i t s at k (running token) cancels e
    cancel-NoStray (releasing n end) lost_request e =
        ground (arith, moves c i t s at k (ended (interrupted end)))
    cancel-NoStray (releasing n end) _ e =
        ground (arith, moves c i t s at k (ended (interrupted end)))
    cancel-NoStray (ended o) d e = k

  submits-NoStray :
      (req : RunRequest) (s : Executor Store)
      → NoStray c s
      → NoStray c (step redis c (submits req) s)
  unfolding step first_phase
  submits-NoStray req s k =
      let t : Task = record { req = req; phase = first_phase c req } in
      ground (arith, tally-concat (stray c) s.tasks t)

  pub NoStray-Kept : Kept redis c any_event (NoStray c)
  unfolding step
  NoStray-Kept = record {
    submit = submits-NoStray;
    global = λ i t s at k. take_global-NoStray c i t s at k t.phase refl;
    agent = λ i t s at k. take_agent-NoStray c i t s at k t.phase refl;
    set = λ i d t s at ok k. after_set-NoStray i t s at k t.phase d refl;
    end = λ i e t s at k. after_run-NoStray c i t s at k t.phase e refl;
    eval = λ i d t s at k. after_eval-NoStray i t s at k t.phase d refl;
    cancelling = λ i d t s at k. cancel-NoStray i t s at k t.phase d refl;
    expire = λ x s ok k. k;
    other_set = λ x n s k. k;
    other_eval = λ x n s k. k;
  }

  pub init-NoStray : (locks : Store) → NoStray c (init c locks)
  unfolding init
  init-NoStray locks = tally-nil (stray c)
