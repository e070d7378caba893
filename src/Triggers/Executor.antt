-- ===== src/Triggers/Executor.antt =====
-- class RunExecutor of src/saga_agents/triggers/executor.py, as a machine.
-- Each call of `submit` is a task, and an event is what lets one task run up to its next `await`:
-- a permit of a semaphore, a reply of Redis, the end of a run. The events come in any order, which
-- covers the order in which asyncio wakes the waiters. A submit may be cancelled where it waits.
mod State
pub mod Induction
pub mod Invariant
pub mod Safety
pub mod Accounting
pub mod Exclusion
pub mod Outage
pub mod Gauges
pub mod Progress
mod Tests
pub use State.*
use saga_agents.Common.{
  ℕ, zero, suc, ◌+◌, ◌-◌, String, ◌==◌, Bool, true, false, ◌&&◌, List, [], ◌∷◌, ◌++◌, Option, none,
  some, ltb, get_elem?, set, if◌then◌else◌,
}
use saga_agents.Common.Dict.{Dict, lookup}
use saga_agents.Config.Models.{AgentDefinition}
use saga_agents.Runtime.Report.{RunStatus, ok, limit_exceeded, timeout, error}
use saga_agents.Triggers.Base.{RunRequest}
use saga_agents.Triggers.Lock.{LockService, Token, ours, theirs, lock_key, compare_and_delete}

abbrev pub update : (String → ℕ) → String → ℕ → String → ℕ
update f a n b = if a == b then n else f b

abbrev pub is_ok : RunStatus → Bool
is_ok ok = true
is_ok _ = false

abbrev permits_of : Option AgentDefinition → ℕ
permits_of none = 0
permits_of (some d) = d.limits.max_concurrent_runs

-- The permits of `_agent_sems[agent_id]`; 0 where there is no such semaphore, and none is read.
unfoldable pub agent_limit : Settings → String → ℕ
agent_limit c agent_id = permits_of (lookup agent_id c.definitions)

unfoldable pub init : {Store : Type 0} → Settings → Store → Executor Store
init c locks = record {
  global_sem = c.global_limit;
  agent_sems = agent_limit c;
  locks = locks;
  uuids = 0;
  inflight_incs = 0;
  inflight_decs = 0;
  durations = [];
  runs = [];
  tasks = [];
}

abbrev pub is_enabled : Option AgentDefinition → Bool
is_enabled none = false
is_enabled (some d) = d.enabled

-- `submit` up to the semaphores
unfoldable pub first_phase : Settings → RunRequest → Phase
first_phase c req =
    if is_enabled (lookup req.agent_id c.definitions)
    then waits_global
    else ended skipped_unknown_or_disabled

abbrev pub run_count : Task → Bool → RunCount
run_count t result = record { agent_id = t.req.agent_id; trigger = t.req.reason; result = result }

module _ {Store : Type 0} where
  -- Task `i`, which is `t`, goes on to wait at another place.
  unfoldable pub move : ℕ → Task → Phase → Executor Store → Executor Store
  move i t phase s = record s { tasks = set s.tasks i (record t { phase = phase }) }

  -- The end of `async with`: both permits go back.
  unfoldable pub leave : ℕ → Task → Outcome → Executor Store → Executor Store
  unfolding move
  leave i t outcome s =
      let s' = move i t (ended outcome) s in
      record s' {
        global_sem = s.global_sem + 1;
        agent_sems = update s.agent_sems t.req.agent_id (s.agent_sems t.req.agent_id + 1);
      }

  count_run : Task → Bool → Executor Store → Executor Store
  count_run t result s = record s { runs = s.runs ++ run_count t result ∷ [] }

  -- AGENT_INFLIGHT.inc(), and the run begins
  unfoldable pub start : ℕ → Task → Option ℕ → Executor Store → Executor Store
  unfolding move
  start i t token s =
      let s' = move i t (running token) s in record s' { inflight_incs = s.inflight_incs + 1 }

  -- What follows the `try`: a report is counted, and the semaphores are left.
  unfoldable pub finish : ℕ → Task → RunEnd → Executor Store → Executor Store
  unfolding leave count_run
  finish i t (returns status) s = leave i t (reported status) (count_run t (is_ok status) s)
  finish i t raises s = leave i t failed s
  finish i t cancels s = leave i t (interrupted cancels) s

  -- The `except` branch counts an error at once. It does not catch a CancelledError.
  on_exception : RunEnd → Task → Executor Store → Executor Store
  unfolding count_run
  on_exception (returns status) t s = s
  on_exception raises t s = count_run t false s
  on_exception cancels t s = s

  -- The `finally` branch up to the release of the lock.
  observe : Task → Executor Store → Executor Store
  observe t s = record s {
    durations = s.durations ++ t.req.agent_id ∷ [];
    inflight_decs = s.inflight_decs + 1;
  }

  release_lock : ℕ → Task → Option ℕ → RunEnd → Executor Store → Executor Store
  unfolding move finish
  release_lock i t none end s = finish i t end s
  release_lock i t (some n) end s = move i t (releasing n end) s

  -- `run` has returned or raised.
  unfoldable pub after_run : ℕ → Task → Phase → RunEnd → Executor Store → Executor Store
  unfolding on_exception observe release_lock
  after_run i t (running token) end s =
      release_lock i t token end (observe t (on_exception end t s))
  after_run i t _ end s = s

  unfoldable pub take_global : ℕ → Task → Phase → Executor Store → Executor Store
  unfolding move
  take_global i t waits_global s =
      if ltb 0 s.global_sem
      then record (move i t waits_agent s) { global_sem = s.global_sem - 1 }
      else s
  take_global i t _ s = s

  unfoldable pub take_agent : Settings → ℕ → Task → Phase → Executor Store → Executor Store
  unfolding move start
  take_agent c i t waits_agent s =
      let taken = record s {
        agent_sems = update s.agent_sems t.req.agent_id (s.agent_sems t.req.agent_id - 1);
      } in
      if ltb 0 (s.agent_sems t.req.agent_id)
      then if c.redis
        then record (move i t (setting s.uuids) taken) { uuids = s.uuids + 1 }
        else start i t none taken
      else s
  take_agent c i t _ s = s

module _ (redis : LockService) where
  open redis use {Store, set_nx, del}

  -- `redis.set(…, nx=True)` returns or raises.
  unfoldable pub after_set : ℕ → Task → Phase → Delivery → Executor Store → Executor Store
  unfolding start leave
  after_set i t (setting n) answered s =
      let (locks, acquired) = set_nx s.locks (lock_key t.req.agent_id) (ours n) in
      let s' = record s { locks = locks } in
      if acquired then start i t (some n) s' else leave i t skipped_redis_lock s'
  after_set i t (setting n) lost_request s = leave i t raised s
  after_set i t (setting n) lost_reply s =
      leave i t raised (record s { locks = (set_nx s.locks (lock_key t.req.agent_id) (ours n)).0 })
  after_set i t _ delivery s = s

  -- `redis.eval(…)` returns, or its exception is suppressed.
  unfoldable pub after_eval : ℕ → Task → Phase → Delivery → Executor Store → Executor Store
  unfolding finish
  after_eval i t (releasing n end) lost_request s = finish i t end s
  after_eval i t (releasing n end) _ s =
      finish i t end
        (record s { locks = compare_and_delete redis s.locks (lock_key t.req.agent_id) (ours n) })
  after_eval i t _ delivery s = s

  -- The task is cancelled where it waits, and the command to Redis that it awaits has arrived or not.
  unfoldable pub cancel : ℕ → Task → Phase → Delivery → Executor Store → Executor Store
  unfolding move leave after_run
  cancel i t waits_global delivery s = move i t (ended cancelled) s
  cancel i t waits_agent delivery s = record (move i t (ended cancelled) s) {
    global_sem = s.global_sem + 1;
  }
  cancel i t (setting n) lost_request s = leave i t cancelled s
  cancel i t (setting n) _ s =
      leave i t cancelled
        (record s { locks = (set_nx s.locks (lock_key t.req.agent_id) (ours n)).0 })
  cancel i t (running token) delivery s = after_run i t (running token) cancels s
  cancel i t (releasing n end) lost_request s = leave i t (interrupted end) s
  cancel i t (releasing n end) _ s =
      leave i t (interrupted end)
        (record s { locks = compare_and_delete redis s.locks (lock_key t.req.agent_id) (ours n) })
  cancel i t (ended outcome) delivery s = s

  -- An event for a task that is not there changes nothing.
  abbrev pub at_task :
      ℕ → (Task → Executor Store → Executor Store) → Executor Store → Executor Store
  at_task i f s = elim (get_elem? s.tasks i) [ none ↦ s | some t ↦ f t s ]

  unfoldable pub step : Settings → Event → Executor Store → Executor Store
  step c (submits req) s = record s {
    tasks = s.tasks ++ record { req = req; phase = first_phase c req } ∷ [];
  }
  step c (global_permit i) s = at_task i (λ t. take_global i t t.phase) s
  step c (agent_permit i) s = at_task i (λ t. take_agent c i t t.phase) s
  step c (set_ends i delivery) s = at_task i (λ t. after_set i t t.phase delivery) s
  step c (run_ends i end) s = at_task i (λ t. after_run i t t.phase end) s
  step c (eval_ends i delivery) s = at_task i (λ t. after_eval i t t.phase delivery) s
  step c (cancel_comes i delivery) s = at_task i (λ t. cancel i t t.phase delivery) s
  step c (expires agent_id) s = record s { locks = del s.locks (lock_key agent_id) }
  step c (others_set agent_id n) s = record s {
    locks = (set_nx s.locks (lock_key agent_id) (theirs n)).0;
  }
  step c (others_eval agent_id n) s = record s {
    locks = compare_and_delete redis s.locks (lock_key agent_id) (theirs n);
  }

  unfoldable pub run : Settings → List Event → Executor Store → Executor Store
  run c [] s = s
  run c (e ∷ es) s = run c es (step c e s)
