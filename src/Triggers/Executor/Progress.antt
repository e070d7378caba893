-- ===== src/Triggers/Executor/Progress.antt =====
-- Submits come to an end: how much each has before it, and the event that it waits for.
pub mod Effects
pub mod Termination
pub mod Permits
pub mod Deadlock
pub mod Completion
use saga_agents.Common.{
  ℕ, suc, ◌+◌, ◌≤◌, ◌<◌, ◌≡◌, refl, ap, Bool, true, false, not, ◌&&◌, List, Option, none, some,
  arith, get_elem?, set, total, total-set, ltb, Bool-cases, inl, inr,
}
use saga_agents.Runtime.Report.{ok}
use saga_agents.Triggers.Lock.{LockService, ours, lock_key}
use saga_agents.Triggers.Executor.{
  Settings, Phase, waits_global, waits_agent, setting, running, releasing, ended, Task, Executor,
  answered, returns, raises, reported, failed, skipped_redis_lock, Event, submits, global_permit,
  agent_permit, set_ends, run_ends, eval_ends, start, leave, finish, after_run, take_global,
  take_agent, after_set, after_eval, cancels, interrupted, at_task, step,
}

-- How many waits a submit has before it, the present one included.
abbrev pub waits_left : Phase → ℕ
waits_left waits_global = 5
waits_left waits_agent = 4
waits_left (setting n) = 3
waits_left (running token) = 2
waits_left (releasing n end) = 1
waits_left (ended outcome) = 0

abbrev pub task_waits : Task → ℕ
task_waits t = waits_left t.phase

abbrev pub waits_in : {Store : Type 0} → Executor Store → ℕ
waits_in s = total task_waits s.tasks

-- What the submit waits for: a permit, an answer of Redis, a report.
abbrev pub awaited : ℕ → Phase → Event
awaited i waits_global = global_permit i
awaited i waits_agent = agent_permit i
awaited i (setting n) = set_ends i answered
awaited i (running token) = run_ends i (returns ok)
awaited i (releasing n end) = eval_ends i answered
awaited i (ended outcome) = eval_ends i answered

-- The event that is awaited can come: a permit only where one is left.
abbrev pub can_go : {Store : Type 0} → Executor Store → Task → Phase → Bool
can_go s t waits_global = ltb 0 s.global_sem
can_go s t waits_agent = ltb 0 (s.agent_sems t.req.agent_id)
can_go s t (ended outcome) = false
can_go s t _ = true
