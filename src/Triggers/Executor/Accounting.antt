-- ===== src/Triggers/Executor/Accounting.antt =====
-- The metrics of a run: each run that ended is counted once, and nothing else is.
use saga_agents.Common.{
  ℕ, suc, ◌+◌, ◌≡◌, refl, Bool, true, false, List, [], ◌∷◌, ◌++◌, none, some, arith, get_elem?, set,
  length, length-concat, tally, one_if, tally-nil, tally-set, tally-concat, Bool-cases, inl, inr,
}
use saga_agents.Triggers.Base.{RunRequest}
use saga_agents.Triggers.Lock.{LockService, ours, lock_key}
use saga_agents.Triggers.Executor.Induction.{Kept, run_induction, any_event, all-any_event}
use saga_agents.Triggers.Executor.{
  Settings, Outcome, reported, failed, raised, skipped_redis_lock, Phase, waits_global, waits_agent,
  setting, running, releasing, ended, Task, Executor, Delivery, answered, lost_request, lost_reply,
  RunEnd, returns, raises, Event, submits, init, leave, first_phase, after_run, take_global,
  take_agent, after_set, after_eval, cancel, cancels, cancelled, interrupted, step, run, RunCount,
  run_count, is_ok,
}

-- The outcomes of a submit whose run began and ended.
abbrev pub of_run : Outcome → Bool
of_run (reported status) = true
of_run failed = true
of_run (interrupted end) = true
of_run _ = false

-- The outcomes of a submit that AGENT_RUNS counts: a run that is cancelled is not counted, nor is a
-- report where the release of the lock was cancelled.
abbrev pub is_result : Outcome → Bool
is_result (reported status) = true
is_result failed = true
is_result (interrupted raises) = true
is_result _ = false

-- AGENT_RUN_DURATION has been observed for the task.
abbrev pub observed : Phase → Bool
observed (releasing n end) = true
observed (ended outcome) = of_run outcome
observed _ = false

-- AGENT_RUNS has been incremented for the task: a report is counted behind the release.
abbrev pub counted : Phase → Bool
counted (releasing n raises) = true
counted (ended outcome) = is_result outcome
counted _ = false

abbrev pub succeeded : Phase → Bool
succeeded (ended (reported status)) = is_ok status
succeeded _ = false

abbrev pub is_observed : Task → Bool
is_observed t = observed t.phase

abbrev pub is_counted : Task → Bool
is_counted t = counted t.phase

-- A report with status OK has been counted, as result="ok".
abbrev pub is_success : Task → Bool
is_success t = succeeded t.phase

abbrev pub was_ok : RunCount → Bool
was_ok r = r.result

-- The metrics hold one entry for each task that they are due for.
pub record Counted {Store : Type 0} (s : Executor Store) : Type 0 where
  pub observations : length s.durations ≡ tally is_observed s.tasks
  pub increments : length s.runs ≡ tally is_counted s.tasks
  pub successes : tally was_ok s.runs ≡ tally is_success s.tasks

module _ (redis : LockService) (c : Settings) (i : ℕ) (t : Task) where
  open redis use {Store, set_nx}

  module _ (s : Executor Store) (at : get_elem? s.tasks i ≡ some t) (k : Counted s) where
    -- What the counts become when task `i` goes to another phase.
    tally-put :
        (p : Phase)
        → (tally is_observed (set s.tasks i (record t { phase = p })) + one_if (observed t.phase)
            ≡ tally is_observed s.tasks + one_if (observed p))
          × (tally is_counted (set s.tasks i (record t { phase = p })) + one_if (counted t.phase)
              ≡ tally is_counted s.tasks + one_if (counted p))
          × (tally is_success (set s.tasks i (record t { phase = p })) + one_if (succeeded t.phase)
              ≡ tally is_success s.tasks + one_if (succeeded p))
    tally-put p = (
      tally-set is_observed s.tasks i t (record t { phase = p }) at,
      tally-set is_counted s.tasks i t (record t { phase = p }) at,
      tally-set is_success s.tasks i t (record t { phase = p }) at,
    )

    take_global-Counted : (p : Phase) → t.phase ≡ p → Counted (take_global i t p s)
    unfolding take_global
    take_global-Counted waits_global e = ground (arith, tally-put waits_agent)
    take_global-Counted _ e = k

    take_agent-Counted : (p : Phase) → t.phase ≡ p → Counted (take_agent c i t p s)
    unfolding take_agent
    take_agent-Counted waits_agent e =
        ground (arith, tally-put (setting s.uuids), tally-put (running none))
    take_agent-Counted _ e = k

    after_set-Counted :
        (p : Phase) (d : Delivery) → t.phase ≡ p → Counted (after_set redis i t p d s)
    unfolding after_set
    after_set-Counted (setting n) answered e =
        elim (Bool-cases (set_nx s.locks (lock_key t.req.agent_id) (ours n)).1) [
          | inl got ↦ rw got (ground (arith, tally-put (running (some n))))
          | inr missed ↦ rw missed (ground (arith, tally-put (ended skipped_redis_lock)))
        ]
    after_set-Counted (setting n) lost_request e = ground (arith, tally-put (ended raised))
    after_set-Counted (setting n) lost_reply e = ground (arith, tally-put (ended raised))
    after_set-Counted _ d e = k

    -- One more entry in each of the metrics.
    more :
        (result : Bool)
        → (length (s.durations ++ t.req.agent_id ∷ []) ≡ suc (length s.durations))
          × (length (s.runs ++ run_count t result ∷ []) ≡ suc (length s.runs))
          × (tally was_ok (s.runs ++ run_count t result ∷ []) ≡ tally was_ok s.runs + one_if result)
    more result = (
      length-concat s.durations t.req.agent_id,
      length-concat s.runs (run_count t result),
      tally-concat was_ok s.runs (run_count t result),
    )

    after_run-Counted : (p : Phase) (end : RunEnd) → t.phase ≡ p → Counted (after_run i t p end s)
    unfolding after_run
    after_run-Counted (running none) (returns status) e =
        ground (arith, more (is_ok status), tally-put (ended (reported status)))
    after_run-Counted (running none) raises e = ground (arith, more false, tally-put (ended failed))
    after_run-Counted (running none) cancels e =
        ground (arith, more false, tally-put (ended (interrupted cancels)))
    after_run-Counted (running (some n)) cancels e =
        ground (arith, more false, tally-put (releasing n cancels))
    after_run-Counted (running (some n)) (returns status) e =
        ground (arith, more false, tally-put (releasing n (returns status)))
    after_run-Counted (running (some n)) raises e =
        ground (arith, more false, tally-put (releasing n raises))
    after_run-Counted _ end e = k

    after_eval-Counted :
        (p : Phase) (d : Delivery) → t.phase ≡ p → Counted (after_eval redis i t p d s)
    unfolding after_eval
    after_eval-Counted (releasing n (returns status)) lost_request e =
        ground (arith, more (is_ok status), tally-put (ended (reported status)))
    after_eval-Counted (releasing n (returns status)) _ e =
        ground (arith, more (is_ok status), tally-put (ended (reported status)))
    after_eval-Counted (releasing n raises) lost_request e =
        ground (arith, tally-put (ended failed))
    after_eval-Counted (releasing n raises) _ e = ground (arith, tally-put (ended failed))
    after_eval-Counted (releasing n cancels) lost_request e =
        ground (arith, tally-put (ended (interrupted cancels)))
    after_eval-Counted (releasing n cancels) _ e =
        ground (arith, tally-put (ended (interrupted cancels)))
    after_eval-Counted _ d e = k

    leave-Counted :
        (n : ℕ) (end : RunEnd) (locks : Store)
        → t.phase ≡ releasing n end
        → Counted (leave i t (interrupted end) (record s { locks = locks }))
    unfolding leave
    leave-Counted n (returns status) locks e =
        ground (arith, tally-put (ended (interrupted (returns status))))
    leave-Counted n raises locks e = ground (arith, tally-put (ended (interrupted raises)))
    leave-Counted n cancels locks e = ground (arith, tally-put (ended (interrupted cancels)))

    cancel-Counted : (p : Phase) (d : Delivery) → t.phase ≡ p → Counted (cancel redis i t p d s)
    unfolding cancel
    cancel-Counted waits_global d e = ground (arith, tally-put (ended cancelled))
    cancel-Counted waits_agent d e = ground (arith, tally-put (ended cancelled))
    cancel-Counted (setting n) lost_request e = ground (arith, tally-put (ended cancelled))
    cancel-Counted (setting n) _ e = ground (arith, tally-put (ended cancelled))
    cancel-Counted (running token) d e = after_run-Counted (running token) cancels e
    cancel-Counted (releasing n end) lost_request e = leave-Counted n end s.locks e
    cancel-Counted (releasing n end) _ e = leave-Counted n end _ e
    cancel-Counted (ended o) d e = k

module _ (redis : LockService) (c : Settings) where
  open redis use {Store}

  submits-Counted :
      (req : RunRequest) (s : Executor Store) → Counted s → Counted (step redis c (submits req) s)
  unfolding step first_phase
  submits-Counted req s k =
      let t : Task = record { req = req; phase = first_phase c req } in
      ground (
        arith,
        tally-concat is_observed s.tasks t,
        tally-concat is_counted s.tasks t,
        tally-concat is_success s.tasks t,
      )

  locks-Counted :
      (locks : Store) (s : Executor Store) → Counted s → Counted (record s { locks = locks })
  locks-Counted locks s k = record {
    observations = k.observations;
    increments = k.increments;
    successes = k.successes;
  }

  Counted-Kept : Kept redis c any_event Counted
  unfolding step
  Counted-Kept = record {
    submit = submits-Counted;
    global = λ i t s at k. take_global-Counted redis c i t s at k t.phase refl;
    agent = λ i t s at k. take_agent-Counted redis c i t s at k t.phase refl;
    set = λ i d t s at ok k. after_set-Counted redis c i t s at k t.phase d refl;
    end = λ i e t s at k. after_run-Counted redis c i t s at k t.phase e refl;
    eval = λ i d t s at k. after_eval-Counted redis c i t s at k t.phase d refl;
    cancelling = λ i d t s at k. cancel-Counted redis c i t s at k t.phase d refl;
    expire = λ x s ok k. locks-Counted _ s k;
    other_set = λ x n s k. locks-Counted _ s k;
    other_eval = λ x n s k. locks-Counted _ s k;
  }

  init-Counted : (locks : Store) → Counted (init c locks)
  unfolding init
  init-Counted locks =
      omega
        (arith, tally-nil is_observed, tally-nil is_counted, tally-nil is_success, tally-nil was_ok)

  -- In every state that a schedule of events reaches, AGENT_RUN_DURATION has one observation for
  -- each submit whose run has ended, one that was cancelled included. AGENT_RUNS has one increment for
  -- each submit whose run raised an Exception, and one for each submit that ended with a report, whose
  -- release of the lock was not cancelled; result="ok" has one for each that ended with status OK.
  pub reachable-Counted :
      (es : List Event) (locks : Store) → Counted (run redis c es (init c locks))
  reachable-Counted es locks =
      run_induction redis c Counted-Kept es (init c locks) (all-any_event es) (init-Counted locks)
