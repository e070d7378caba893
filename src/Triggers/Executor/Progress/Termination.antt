-- ===== src/Triggers/Executor/Progress/Termination.antt =====
-- A submit takes note of five events at most.
use saga_agents.Common.{
  ℕ, ◌+◌, ◌*◌, ◌≤◌, ◌<◌, ◌≡◌, refl, Bool, true, false, List, [], ◌∷◌, some, arith, get_elem?,
  total-concat, total-nil, one_if, tally,
}
use saga_agents.Triggers.Base.{RunRequest}
use saga_agents.Triggers.Lock.{LockService}
use saga_agents.Triggers.Executor.{
  Settings, Phase, waits_global, waits_agent, setting, running, releasing, ended, Task, Executor,
  Event, submits, global_permit, agent_permit, set_ends, run_ends, eval_ends, cancel_comes, expires,
  others_set, others_eval, init, first_phase, after_run, take_global, take_agent, after_set,
  after_eval, cancel, step, run,
}
use saga_agents.Triggers.Executor.Progress.{waits_left, task_waits, waits_in, awaited, can_go}
use saga_agents.Triggers.Executor.Progress.Effects.{
  is_effective, is_submit, Advances, on_task, take_global-Advances, take_agent-Advances,
  after_set-Advances, after_run-Advances, after_eval-Advances, cancel-Advances, at_task-Advances,
}

-- The event concerns one submit that was made before.
abbrev pub is_of_task : Event → Bool
is_of_task (submits req) = false
is_of_task (expires a) = false
is_of_task (others_set a n) = false
is_of_task (others_eval a n) = false
is_of_task _ = true

first_phase-le : (c : Settings) (req : RunRequest) → waits_left (first_phase c req) ≤ 5
unfolding first_phase
first_phase-le c req = ground arith

module _ (redis : LockService) (c : Settings) where
  open redis use {Store}

  task-Advances :
      (e : Event) (s : Executor Store)
      → is_of_task e ≡ true
      → Advances s (step redis c e s) (is_effective e s)
  unfolding step is_effective
  task-Advances (global_permit i) s h =
      at_task-Advances redis c i (λ t. take_global i t t.phase) _ s
        (λ t at. take_global-Advances redis c i t s at t.phase refl)
  task-Advances (agent_permit i) s h =
      at_task-Advances redis c i (λ t. take_agent c i t t.phase) _ s
        (λ t at. take_agent-Advances redis c i t s at t.phase refl)
  task-Advances (set_ends i d) s h =
      at_task-Advances redis c i (λ t. after_set redis i t t.phase d) _ s
        (λ t at. after_set-Advances redis c i t s at t.phase d refl)
  task-Advances (run_ends i e) s h =
      at_task-Advances redis c i (λ t. after_run i t t.phase e) _ s
        (λ t at. after_run-Advances redis c i t s at t.phase e refl)
  task-Advances (eval_ends i d) s h =
      at_task-Advances redis c i (λ t. after_eval redis i t t.phase d) _ s
        (λ t at. after_eval-Advances redis c i t s at t.phase d refl)
  task-Advances (cancel_comes i d) s h =
      at_task-Advances redis c i (λ t. cancel redis i t t.phase d) _ s
        (λ t at. cancel-Advances redis c i t s at t.phase d refl)
  task-Advances _ s h = cc

  -- An event that no submit takes note of leaves the executor as it is.
  ineffective :
      (e : Event) (s : Executor Store)
      → is_of_task e ≡ true
      → is_effective e s ≡ false
      → step redis c e s ≡ s
  ineffective e s h none_moves = (task-Advances e s h).1 none_moves

  step_fewer :
      (e : Event) (s : Executor Store)
      → waits_in (step redis c e s) + one_if (is_effective e s)
        ≤ waits_in s + 5 * one_if (is_submit e)
  unfolding step is_effective
  step_fewer (submits req) s = omega (
    arith,
    first_phase-le c req,
    total-concat task_waits s.tasks (record { req = req; phase = first_phase c req }),
  )
  step_fewer (expires a) s = omega arith
  step_fewer (others_set a n) s = omega arith
  step_fewer (others_eval a n) s = omega arith
  step_fewer (global_permit i) s = omega (arith, (task-Advances (global_permit i) s refl).0)
  step_fewer (agent_permit i) s = omega (arith, (task-Advances (agent_permit i) s refl).0)
  step_fewer (set_ends i d) s = omega (arith, (task-Advances (set_ends i d) s refl).0)
  step_fewer (run_ends i e) s = omega (arith, (task-Advances (run_ends i e) s refl).0)
  step_fewer (eval_ends i d) s = omega (arith, (task-Advances (eval_ends i d) s refl).0)
  step_fewer (cancel_comes i d) s = omega (arith, (task-Advances (cancel_comes i d) s refl).0)

  -- The events of a schedule that a submit takes note of.
  unfoldable pub count_effects : List Event → Executor Store → ℕ
  count_effects [] s = 0
  count_effects (e ∷ es) s = one_if (is_effective e s) + count_effects es (step redis c e s)

  effects_from :
      (es : List Event) (s : Executor Store)
      → count_effects es s + waits_in (run redis c es s) ≤ waits_in s + 5 * tally is_submit es
  unfolding count_effects run tally
  effects_from [] s = omega arith
  effects_from (e ∷ es) s =
      let now = step_fewer e s in
      let later = effects_from es (step redis c e s) in omega (arith, now, later)

  init-waits : (locks : Store) → waits_in (init c locks) ≡ 0
  unfolding init
  init-waits locks = total-nil task_waits

  -- In every schedule of events, also with cancellations and with answers that never come: the permits
  -- that submits take, the awaits of theirs that end and the cancellations that reach one of them are
  -- five for each submit of the schedule at most.
  pub effects_bounded :
      (es : List Event) (locks : Store) → count_effects es (init c locks) ≤ 5 * tally is_submit es
  effects_bounded es locks = omega (arith, effects_from es (init c locks), init-waits locks)

  module _ (i : ℕ) (t : Task) (s : Executor Store) (at : get_elem? s.tasks i ≡ some t) where
    effective-awaited :
        (p : Phase) → t.phase ≡ p → can_go s t p ≡ true → is_effective (awaited i p) s ≡ true
    unfolding is_effective
    effective-awaited waits_global e free = rw (at, on_task, e) free
    effective-awaited waits_agent e free = rw (at, on_task, e) free
    effective-awaited (setting n) e free = rw (at, on_task, e) free
    effective-awaited (running token) e free = rw (at, on_task, e) free
    effective-awaited (releasing n end) e free = rw (at, on_task, e) free
    effective-awaited (ended o) e free = cc

    submit-awaited : (p : Phase) → is_submit (awaited i p) ≡ false
    submit-awaited waits_global = refl
    submit-awaited waits_agent = refl
    submit-awaited (setting n) = refl
    submit-awaited (running token) = refl
    submit-awaited (releasing n end) = refl
    submit-awaited (ended o) = refl

    pub fewer_waits :
        can_go s t t.phase ≡ true → waits_in (step redis c (awaited i t.phase) s) < waits_in s
    fewer_waits free =
        let next = step_fewer (awaited i t.phase) s in
        ground (arith, effective-awaited t.phase refl free, submit-awaited t.phase)
