-- ===== src/Triggers/Executor/Safety.antt =====
-- The limits on concurrent runs, and what is left when every submit has ended.
use saga_agents.Common.{
  ◌≤◌, String, ◌==◌, ◌≡◌, Bool, true, false, ◌&&◌, List, arith, all, tally, tally_mono,
  tally-eq-zero,
}
use saga_agents.Triggers.Lock.{LockService}
use saga_agents.Triggers.Executor.{Settings, Phase, ended, Task, Event, agent_limit, init, run}
use saga_agents.Triggers.Executor.Invariant.{
  holds_global, holds_agent, runs_now, is_running, reachable-Balanced,
}

-- The task is a run in progress of this agent.
abbrev pub runs_agent : String → Task → Bool
runs_agent a t = (t.req.agent_id == a) && is_running t.phase

abbrev pub has_ended : Phase → Bool
has_ended (ended outcome) = true
has_ended _ = false

abbrev pub is_over : Task → Bool
is_over t = has_ended t.phase

running-has_global : (t : Task) → runs_now t ≡ true → holds_global t ≡ true
running-has_global t h = ground arith

running-has_agent : (a : String) (t : Task) → runs_agent a t ≡ true → holds_agent a t ≡ true
running-has_agent a t h = ground arith

module _ (redis : LockService) (c : Settings) (es : List Event) where
  open redis use {Store}

  -- In every state that a schedule of events reaches, at most `global_limit` runs are in progress,
  -- and of one agent at most its `max_concurrent_runs`.
  pub run_bounds :
      (locks : Store) (a : String)
      → (tally runs_now (run redis c es (init c locks)).tasks ≤ c.global_limit)
        × (tally (runs_agent a) (run redis c es (init c locks)).tasks ≤ agent_limit c a)
  run_bounds locks a =
      let s = run redis c es (init c locks) in
      let b = reachable-Balanced redis c a es locks in
      (
        omega (arith, b.global, tally_mono runs_now holds_global running-has_global s.tasks),
        omega (
          arith,
          b.agent,
          tally_mono (runs_agent a) (holds_agent a) (running-has_agent a) s.tasks,
        ),
      )

  -- Whatever ended the submits (a report, an exception, a lock that was taken, a Redis error, a
  -- cancellation at any await): when all have ended, every permit of every semaphore is back and the
  -- in-flight gauge is zero.
  pub permits_return :
      (locks : Store) (a : String)
      → all is_over (run redis c es (init c locks)).tasks ≡ true
      → ((run redis c es (init c locks)).global_sem ≡ c.global_limit)
        × ((run redis c es (init c locks)).agent_sems a ≡ agent_limit c a)
        × ((run redis c es (init c locks)).inflight_incs
            ≡ (run redis c es (init c locks)).inflight_decs)
  permits_return locks a over =
      let s = run redis c es (init c locks) in
      let b = reachable-Balanced redis c a es locks in
      let g = tally-eq-zero holds_global is_over (λ t h. ground arith) s.tasks over in
      let h = tally-eq-zero (holds_agent a) is_over (λ t h. ground arith) s.tasks over in
      let r = tally-eq-zero runs_now is_over (λ t h. ground arith) s.tasks over in
      (omega (arith, b.global), omega (arith, b.agent), omega (arith, b.gauge))
