-- ===== src/Triggers/Executor/Tests.antt =====
-- Runs of the executor on small schedules, and the theorems at them.
use saga_agents.Common.{
  length, ◌<◌, ◌*◌, arith, ℕ, ◌≤◌, String, ◌≡◌, refl, true, false, List, [], ◌∷◌, none, some, tally,
  get_elem?, all,
}
use saga_agents.Common.Dict.{lookup}
use saga_agents.Config.Models.{default_definition}
use saga_agents.Runtime.Report.{ok}
use saga_agents.Triggers.Base.{RunRequest}
use saga_agents.Triggers.Lock.{ours, theirs, lock_key, compare_and_delete}
use saga_agents.Triggers.Lock.Memory.{Locks, memory, no_locks}
use saga_agents.Triggers.Executor.{
  Settings, raised, running, ended, Executor, answered, lost_request, returns, raises, Event,
  expires, others_set, is_enabled, submits, global_permit, agent_permit, set_ends, run_ends,
  eval_ends, agent_limit, init, step, run, first_phase, after_run, take_global, take_agent,
  after_set, after_eval, cancel, cancel_comes, cancels, cancelled, interrupted, lost_reply,
}
use saga_agents.Triggers.Executor.Invariant.{runs_now}
use saga_agents.Triggers.Executor.Safety.{runs_agent, is_over, run_bounds, permits_return}
use saga_agents.Triggers.Executor.Accounting.{Counted, reachable-Counted}
use saga_agents.Triggers.Executor.Exclusion.Schedules.{one_run_per_agent}
use saga_agents.Triggers.Executor.Outage.{outage}
use saga_agents.Triggers.Executor.Progress.Effects.{is_submit, is_effective}
use saga_agents.Triggers.Executor.Progress.Termination.{count_effects, effects_bounded}
use saga_agents.Triggers.Executor.Progress.Deadlock.{Admits}
use saga_agents.Triggers.Executor.Progress.Completion.{is_wakeup, can_complete}

abbrev settings : Settings
settings = record {
  definitions = ("a", default_definition "a") ∷ ("b", default_definition "b") ∷ [];
  global_limit = 2;
  redis = true;
}

abbrev ask : String → RunRequest
ask a = record { agent_id = a; reason = "external" }

-- Three submits; "a" runs, and its second submit waits for the permit of the agent.
abbrev busy : List Event
busy =
    submits (ask "a")
    ∷ submits (ask "a")
    ∷ submits (ask "zz")
    ∷ global_permit 0
    ∷ agent_permit 0
    ∷ set_ends 0 answered
    ∷ global_permit 1
    ∷ agent_permit 1
    ∷ []

abbrev drained : List Event
drained =
    submits (ask "a")
    ∷ submits (ask "b")
    ∷ global_permit 0
    ∷ agent_permit 0
    ∷ set_ends 0 answered
    ∷ run_ends 0 (returns ok)
    ∷ eval_ends 0 answered
    ∷ global_permit 1
    ∷ agent_permit 1
    ∷ set_ends 1 answered
    ∷ run_ends 1 raises
    ∷ eval_ends 1 lost_request
    ∷ []

executor : Unit {0}
unfolding run step init first_phase take_global take_agent after_set after_run after_eval cancel
    agent_limit lookup compare_and_delete lock_key
executor = tt

busy_runs : tally runs_now (run memory settings busy (init settings no_locks)).tasks ≡ 1
unfolding executor tally
busy_runs = refl

-- One report, one exception, a suppressed release: all is given back, and the key of "b" stays.
abbrev after_drained : Executor Locks
after_drained = run memory settings drained (init settings no_locks)

drained_runs :
    (after_drained.runs
      ≡ record { agent_id = "a"; trigger = "external"; result = true }
        ∷ record { agent_id = "b"; trigger = "external"; result = false }
        ∷ [])
    × (after_drained.locks "agent:lock:a" ≡ none)
    × (after_drained.locks "agent:lock:b" ≡ some (ours 1))
unfolding executor
drained_runs = (refl, refl, refl)

run_bounds_example :
    (tally runs_now (run memory settings busy (init settings no_locks)).tasks ≤ 2)
    × (tally (runs_agent "a") (run memory settings busy (init settings no_locks)).tasks
        ≤ agent_limit settings "a")
run_bounds_example = run_bounds memory settings busy no_locks "a"

drained_over : all is_over after_drained.tasks ≡ true
unfolding executor
drained_over = refl

permits_return_example :
    (after_drained.global_sem ≡ 2)
    × (after_drained.agent_sems "a" ≡ agent_limit settings "a")
    × (after_drained.inflight_incs ≡ after_drained.inflight_decs)
permits_return_example = permits_return memory settings drained no_locks "a" drained_over

-- Cancelled in the run, before the permit of the agent, and while `set` is awaited, which arrives.
abbrev disturbed : List Event
disturbed =
    submits (ask "a")
    ∷ global_permit 0
    ∷ agent_permit 0
    ∷ set_ends 0 answered
    ∷ cancel_comes 0 answered
    ∷ eval_ends 0 answered
    ∷ submits (ask "b")
    ∷ global_permit 1
    ∷ cancel_comes 1 answered
    ∷ submits (ask "b")
    ∷ global_permit 2
    ∷ agent_permit 2
    ∷ cancel_comes 2 lost_reply
    ∷ cancel_comes 2 lost_reply
    ∷ []

abbrev after_disturbed : Executor Locks
after_disturbed = run memory settings disturbed (init settings no_locks)

-- The cancelled run is observed and not counted, and the key of "b" stays.
disturbed_ends :
    (after_disturbed.runs ≡ [])
    × (after_disturbed.durations ≡ "a" ∷ [])
    × (after_disturbed.global_sem ≡ 2)
    × (after_disturbed.locks "agent:lock:a" ≡ none)
    × (after_disturbed.locks "agent:lock:b" ≡ some (ours 1))
    × (get_elem? after_disturbed.tasks 0
        ≡ some (record { req = ask "a"; phase = ended (interrupted cancels) }))
    × (get_elem? after_disturbed.tasks 2 ≡ some (record { req = ask "b"; phase = ended cancelled }))
unfolding executor
disturbed_ends = (refl, refl, refl, refl, refl, refl, refl)

reachable-Counted_example : Counted after_disturbed
reachable-Counted_example = reachable-Counted memory settings disturbed no_locks

disturbed_effects : count_effects memory settings disturbed (init settings no_locks) ≡ 10
unfolding executor count_effects is_effective
disturbed_effects = refl

effects_bounded_example :
    count_effects memory settings disturbed (init settings no_locks) ≤ 5 * tally is_submit disturbed
effects_bounded_example = effects_bounded memory settings disturbed no_locks

busy_task :
    get_elem? (run memory settings busy (init settings no_locks)).tasks 0
    ≡ some (record { req = ask "a"; phase = running (some 0) })
unfolding executor
busy_task = refl

one_run_per_agent_example : ◌≡◌ {A = ℕ} 0 0
one_run_per_agent_example =
    one_run_per_agent memory settings refl busy no_locks 0 0
      (record { req = ask "a"; phase = running (some 0) })
      (record { req = ask "a"; phase = running (some 0) }) (some 0) (some 0) refl busy_task
      busy_task refl refl refl

-- The key of "a" expires while its run goes on, and another process takes the lock.
overtaken :
    let s : Executor Locks =
      run memory settings
        (expires "a" ∷ others_set "a" 7 ∷ [])
        (run memory settings busy (init settings no_locks)) in
    (get_elem? s.tasks 0 ≡ some (record { req = ask "a"; phase = running (some 0) }))
    × (s.locks "agent:lock:a" ≡ some (theirs 7))
unfolding executor
overtaken = (refl, refl)

settings_limits :
    (a : String) → is_enabled (lookup a settings.definitions) ≡ true → 0 < agent_limit settings a
unfolding agent_limit lookup
settings_limits a enabled = ground arith

settings-Admits : Admits settings
settings-Admits = record { global = omega arith; agents = settings_limits }

can_complete_example :
    (es : List Event) × (all is_wakeup es ≡ true)
    × (length es ≤ 5 * length (run memory settings busy (init settings no_locks)).tasks)
    × (all is_over
          (run memory settings es (run memory settings busy (init settings no_locks))).tasks
        ≡ true)
can_complete_example = can_complete memory settings settings-Admits busy no_locks

abbrev refused : List Event
refused =
    submits (ask "a")
    ∷ global_permit 0
    ∷ agent_permit 0
    ∷ set_ends 0 lost_request
    ∷ submits (ask "a")
    ∷ global_permit 1
    ∷ agent_permit 1
    ∷ []

outage_example :
    ((run memory settings refused (init settings no_locks)).inflight_incs ≡ 0)
    × (tally runs_now (run memory settings refused (init settings no_locks)).tasks ≡ 0)
outage_example = outage memory settings refl refused no_locks refl

refused_ended :
    get_elem? (run memory settings refused (init settings no_locks)).tasks 0
    ≡ some (record { req = ask "a"; phase = ended raised })
unfolding executor
refused_ended = refl
