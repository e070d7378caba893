-- ===== src/Triggers/Executor/Outage.antt =====
-- Redis is configured and cannot be reached.
use saga_agents.Common.{ℕ, ◌≡◌, refl, Bool, true, false, List, arith, all, tally}
use saga_agents.Triggers.Lock.{LockService}
use saga_agents.Triggers.Executor.Induction.{Kept, run_induction}
use saga_agents.Triggers.Executor.Invariant.{runs_now, reachable-Balanced}
use saga_agents.Triggers.Executor.{
  Settings, Phase, waits_global, waits_agent, setting, running, releasing, Task, Executor, Delivery,
  answered, lost_request, lost_reply, RunEnd, Event, set_ends, init, after_run, take_global,
  take_agent, after_set, after_eval, cancel, step, run,
}

-- No `redis.set` returns: each one that ends has raised.
abbrev pub unanswered : Event → Bool
unanswered (set_ends i answered) = false
unanswered _ = true

module _ (redis : LockService) (c : Settings) (on : c.redis ≡ true) where
  open redis use {Store}

  -- No run has begun.
  abbrev NoneBegun : Executor Store → Type 0
  NoneBegun s = s.inflight_incs ≡ 0

  module _ (i : ℕ) (t : Task) (s : Executor Store) (h : NoneBegun s) where
    take_global-NoneBegun : (p : Phase) → NoneBegun (take_global i t p s)
    unfolding take_global
    take_global-NoneBegun waits_global = ground arith
    take_global-NoneBegun _ = h

    take_agent-NoneBegun : (p : Phase) → NoneBegun (take_agent c i t p s)
    unfolding take_agent
    take_agent-NoneBegun waits_agent = ground arith
    take_agent-NoneBegun _ = h

    after_set-NoneBegun :
        (p : Phase) (d : Delivery)
        → unanswered (set_ends i d) ≡ true
        → NoneBegun (after_set redis i t p d s)
    unfolding after_set
    after_set-NoneBegun p answered ok = cc
    after_set-NoneBegun (setting n) lost_request ok = h
    after_set-NoneBegun (setting n) lost_reply ok = h
    after_set-NoneBegun _ d ok = h

    after_run-NoneBegun : (p : Phase) (end : RunEnd) → NoneBegun (after_run i t p end s)
    unfolding after_run
    after_run-NoneBegun (running token) end = ground arith
    after_run-NoneBegun _ end = h

    after_eval-NoneBegun : (p : Phase) (d : Delivery) → NoneBegun (after_eval redis i t p d s)
    unfolding after_eval
    after_eval-NoneBegun (releasing n end) d = ground arith
    after_eval-NoneBegun _ d = h

    cancel-NoneBegun : (p : Phase) (d : Delivery) → NoneBegun (cancel redis i t p d s)
    unfolding cancel
    cancel-NoneBegun (setting n) lost_request = h
    cancel-NoneBegun (setting n) _ = h
    cancel-NoneBegun (running token) d = ground arith
    cancel-NoneBegun (releasing n end) lost_request = h
    cancel-NoneBegun (releasing n end) _ = h
    cancel-NoneBegun _ d = h

  NoneBegun-Kept : Kept redis c unanswered NoneBegun
  unfolding step
  NoneBegun-Kept = record {
    submit = λ req s h. h;
    global = λ i t s at h. take_global-NoneBegun i t s h t.phase;
    agent = λ i t s at h. take_agent-NoneBegun i t s h t.phase;
    set = λ i d t s at ok h. after_set-NoneBegun i t s h t.phase d ok;
    end = λ i e t s at h. after_run-NoneBegun i t s h t.phase e;
    eval = λ i d t s at h. after_eval-NoneBegun i t s h t.phase d;
    cancelling = λ i d t s at h. cancel-NoneBegun i t s h t.phase d;
    expire = λ a s ok h. h;
    other_set = λ a n s h. h;
    other_eval = λ a n s h. h;
  }

  init-NoneBegun : (locks : Store) → NoneBegun (init c locks)
  unfolding init
  init-NoneBegun locks = refl

  -- With a Redis client that never answers `set`, no run begins, by whichever trigger it was
  -- submitted and however often: no state that a schedule reaches has a run in progress or begun.
  pub outage :
      (es : List Event) (locks : Store)
      → all unanswered es ≡ true
      → ((run redis c es (init c locks)).inflight_incs ≡ 0)
        × (tally runs_now (run redis c es (init c locks)).tasks ≡ 0)
  outage es locks ok =
      let none_begun =
        run_induction redis c NoneBegun-Kept es (init c locks) ok (init-NoneBegun locks) in
      (none_begun, omega (arith, none_begun, (reachable-Balanced redis c "" es locks).gauge))
