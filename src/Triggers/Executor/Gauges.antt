-- ===== src/Triggers/Executor/Gauges.antt =====
-- The metrics against each other: each run that is observed leaves the gauge at once.
use saga_agents.Common.{
  ℕ, ◌+◌, ◌≤◌, ◌≡◌, refl, true, List, arith, length, length-concat, tally_mono,
}
use saga_agents.Triggers.Lock.{LockService}
use saga_agents.Triggers.Executor.Induction.{Kept, run_induction, any_event, all-any_event}
use saga_agents.Triggers.Executor.Accounting.{
  is_observed, is_counted, observed, counted, reachable-Counted,
}
use saga_agents.Triggers.Executor.Invariant.{reachable-Balanced}
use saga_agents.Triggers.Executor.Safety.{run_bounds}
use saga_agents.Triggers.Executor.{
  Settings, reported, failed, interrupted, Phase, waits_global, waits_agent, setting, running,
  releasing, ended, Task, Executor, Delivery, answered, lost_request, lost_reply, RunEnd, cancels,
  Event, init, after_run, take_global, take_agent, after_set, after_eval, cancel, step, run,
  Settings,
}

-- Each observation of AGENT_RUN_DURATION comes with a decrement of AGENT_INFLIGHT.
abbrev InStep : {Store : Type 0} → Executor Store → Type 0
InStep s = length s.durations ≡ s.inflight_decs

module _ (redis : LockService) (c : Settings) where
  open redis use {Store}

  module _ (i : ℕ) (t : Task) (s : Executor Store) (h : InStep s) where
    take_global-InStep : (p : Phase) → InStep (take_global i t p s)
    unfolding take_global
    take_global-InStep waits_global = ground arith
    take_global-InStep _ = h

    take_agent-InStep : (p : Phase) → InStep (take_agent c i t p s)
    unfolding take_agent
    take_agent-InStep waits_agent = ground arith
    take_agent-InStep _ = h

    after_set-InStep : (p : Phase) (d : Delivery) → InStep (after_set redis i t p d s)
    unfolding after_set
    after_set-InStep (setting n) answered = ground arith
    after_set-InStep (setting n) lost_request = h
    after_set-InStep (setting n) lost_reply = h
    after_set-InStep _ d = h

    after_run-InStep : (p : Phase) (end : RunEnd) → InStep (after_run i t p end s)
    unfolding after_run
    after_run-InStep (running token) end = ground (arith, length-concat s.durations t.req.agent_id)
    after_run-InStep _ end = h

    after_eval-InStep : (p : Phase) (d : Delivery) → InStep (after_eval redis i t p d s)
    unfolding after_eval
    after_eval-InStep (releasing n end) d = ground arith
    after_eval-InStep _ d = h

    cancel-InStep : (p : Phase) (d : Delivery) → InStep (cancel redis i t p d s)
    unfolding cancel
    cancel-InStep (running token) d = after_run-InStep (running token) cancels
    cancel-InStep p d = ground arith

  InStep-Kept : Kept redis c any_event InStep
  unfolding step
  InStep-Kept = record {
    submit = λ req s h. h;
    global = λ i t s at h. take_global-InStep i t s h t.phase;
    agent = λ i t s at h. take_agent-InStep i t s h t.phase;
    set = λ i d t s at ok h. after_set-InStep i t s h t.phase d;
    end = λ i e t s at h. after_run-InStep i t s h t.phase e;
    eval = λ i d t s at h. after_eval-InStep i t s h t.phase d;
    cancelling = λ i d t s at h. cancel-InStep i t s h t.phase d;
    expire = λ a s ok h. h;
    other_set = λ a n s h. h;
    other_eval = λ a n s h. h;
  }

  init-InStep : (locks : Store) → InStep (init c locks)
  unfolding init
  init-InStep locks = refl

  counted-observed : (p : Phase) → counted p ≡ true → observed p ≡ true
  counted-observed (releasing n end) h = refl
  counted-observed (ended (reported status)) h = refl
  counted-observed (ended failed) h = refl
  counted-observed (ended (interrupted end)) h = refl
  counted-observed _ h = h

  -- In every state that a schedule reaches, the metrics fit together: AGENT_RUNS counts no more runs
  -- than AGENT_RUN_DURATION has observed, which are those that AGENT_INFLIGHT was lowered for; and the
  -- gauge is neither below zero nor above the global limit.
  pub reachable-metrics :
      (es : List Event) (locks : Store)
      → (length (run redis c es (init c locks)).runs
          ≤ length (run redis c es (init c locks)).durations)
        × (length (run redis c es (init c locks)).durations
            ≡ (run redis c es (init c locks)).inflight_decs)
        × ((run redis c es (init c locks)).inflight_decs
            ≤ (run redis c es (init c locks)).inflight_incs)
        × ((run redis c es (init c locks)).inflight_incs
            ≤ (run redis c es (init c locks)).inflight_decs + c.global_limit)
  reachable-metrics es locks =
      let s = run redis c es (init c locks) in
      let k = reachable-Counted redis c es locks in
      let gauge = (reachable-Balanced redis c "" es locks).gauge in
      let limit = (run_bounds redis c es locks "").0 in
      let fewer = tally_mono is_counted is_observed (λ t. counted-observed t.phase) s.tasks in
      (
        omega (arith, k.observations, k.increments, fewer),
        run_induction redis c InStep-Kept es (init c locks) (all-any_event es) (init-InStep locks),
        omega (arith, gauge),
        omega (arith, gauge, limit),
      )
