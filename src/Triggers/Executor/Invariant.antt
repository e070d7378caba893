-- ===== src/Triggers/Executor/Invariant.antt =====
-- Permits and the gauge: what is taken is held by a task, in every state that a schedule reaches.
use saga_agents.Common.{
  ℕ, ◌+◌, String, ◌==◌, eq_iff, ◌≡◌, refl, Bool, true, false, ◌&&◌, List, Option, none, some, arith,
  get_elem?, set, tally, tally-set, tally-concat, tally-nil, one_if, Bool-cases, inl, inr,
}
use saga_agents.Triggers.Base.{RunRequest}
use saga_agents.Triggers.Executor.Induction.{Kept, run_induction, any_event, all-any_event}
use saga_agents.Triggers.Lock.{LockService, ours, lock_key}
use saga_agents.Triggers.Executor.{
  Settings, Outcome, Phase, waits_global, waits_agent, setting, running, releasing, ended, Task,
  Executor, Delivery, answered, lost_request, lost_reply, RunEnd, returns, raises, Event, submits,
  agent_limit, init, first_phase, leave, start, finish, after_run, take_global, take_agent, cancel,
  cancels, cancelled, interrupted, after_set, after_eval, step, run, reported, raised, failed,
  skipped_redis_lock,
}

-- The phases inside `async with`, by what has been taken.
abbrev pub has_global : Phase → Bool
has_global waits_global = false
has_global (ended outcome) = false
has_global _ = true

abbrev pub has_agent : Phase → Bool
has_agent waits_global = false
has_agent waits_agent = false
has_agent (ended outcome) = false
has_agent _ = true

abbrev pub is_running : Phase → Bool
is_running (running token) = true
is_running _ = false

abbrev pub holds_global : Task → Bool
holds_global t = has_global t.phase

abbrev pub holds_agent : String → Task → Bool
holds_agent a t = (t.req.agent_id == a) && has_agent t.phase

abbrev pub runs_now : Task → Bool
runs_now t = is_running t.phase

-- Each permit is in its semaphore or with a task, and the gauge shows the runs in progress.
pub record Balanced {Store : Type 0} (c : Settings) (a : String) (s : Executor Store) : Type 0 where
  pub global : s.global_sem + tally holds_global s.tasks ≡ c.global_limit
  pub agent : s.agent_sems a + tally (holds_agent a) s.tasks ≡ agent_limit c a
  pub gauge : s.inflight_incs ≡ s.inflight_decs + tally runs_now s.tasks

module _ {Store : Type 0} (c : Settings) (a : String) (i : ℕ) (t : Task) (s : Executor Store)
    (at : get_elem? s.tasks i ≡ some t) where
  abbrev put : Phase → List Task
  put p = set s.tasks i (record t { phase = p })

  -- What the counts become when task `i` goes to another phase.
  tally-put :
      (p : Phase)
      → (tally holds_global (put p) + one_if (has_global t.phase)
          ≡ tally holds_global s.tasks + one_if (has_global p))
        × (tally (holds_agent a) (put p) + one_if (holds_agent a t)
            ≡ tally (holds_agent a) s.tasks + one_if ((t.req.agent_id == a) && has_agent p))
        × (tally runs_now (put p) + one_if (is_running t.phase)
            ≡ tally runs_now s.tasks + one_if (is_running p))
  tally-put p = (
    tally-set holds_global s.tasks i t (record t { phase = p }) at,
    tally-set (holds_agent a) s.tasks i t (record t { phase = p }) at,
    tally-set runs_now s.tasks i t (record t { phase = p }) at,
  )

  module _ (b : Balanced c a s) where
    take_global-Balanced : (p : Phase) → t.phase ≡ p → Balanced c a (take_global i t p s)
    unfolding take_global
    take_global-Balanced waits_global e = ground (arith, tally-put waits_agent)
    take_global-Balanced _ e = b

    take_agent-Balanced : (p : Phase) → t.phase ≡ p → Balanced c a (take_agent c i t p s)
    unfolding take_agent
    take_agent-Balanced waits_agent e =
        ground
          (arith, eq_iff t.req.agent_id a, tally-put (setting s.uuids), tally-put (running none))
    take_agent-Balanced _ e = b

    after_run-Balanced :
        (p : Phase) (end : RunEnd) → t.phase ≡ p → Balanced c a (after_run i t p end s)
    unfolding after_run
    after_run-Balanced (running none) (returns status) e =
        ground (arith, eq_iff t.req.agent_id a, tally-put (ended (reported status)))
    after_run-Balanced (running none) raises e =
        ground (arith, eq_iff t.req.agent_id a, tally-put (ended failed))
    after_run-Balanced (running none) cancels e =
        ground (arith, eq_iff t.req.agent_id a, tally-put (ended (interrupted cancels)))
    after_run-Balanced (running (some n)) (returns status) e =
        ground (arith, tally-put (releasing n (returns status)))
    after_run-Balanced (running (some n)) raises e = ground (arith, tally-put (releasing n raises))
    after_run-Balanced (running (some n)) cancels e =
        ground (arith, tally-put (releasing n cancels))
    after_run-Balanced _ end e = b

    -- A task that holds both permits and is not running gives them back; or its run begins.
    module _ (p : Phase) (is : t.phase ≡ p) (both : has_agent p ≡ true)
        (idle : is_running p ≡ false) (locks : Store) where
      leave-Balanced : (o : Outcome) → Balanced c a (leave i t o (record s { locks = locks }))
      unfolding leave
      leave-Balanced o = ground (arith, eq_iff t.req.agent_id a, tally-put (ended o))

      start-Balanced :
          (token : Option ℕ) → Balanced c a (start i t token (record s { locks = locks }))
      unfolding start
      start-Balanced token = ground (arith, tally-put (running token))

      finish-Balanced : (end : RunEnd) → Balanced c a (finish i t end (record s { locks = locks }))
      unfolding finish
      finish-Balanced (returns status) =
          ground (arith, eq_iff t.req.agent_id a, tally-put (ended (reported status)))
      finish-Balanced raises = ground (arith, eq_iff t.req.agent_id a, tally-put (ended failed))
      finish-Balanced cancels =
          ground (arith, eq_iff t.req.agent_id a, tally-put (ended (interrupted cancels)))

module _ (redis : LockService) (c : Settings) (a : String) where
  open redis use {Store, set_nx}

  module _ (i : ℕ) (t : Task) (s : Executor Store) (at : get_elem? s.tasks i ≡ some t)
      (b : Balanced c a s) where
    after_set-Balanced :
        (p : Phase) (d : Delivery) → t.phase ≡ p → Balanced c a (after_set redis i t p d s)
    unfolding after_set
    after_set-Balanced (setting n) answered e =
        let (locks, acquired) = set_nx s.locks (lock_key t.req.agent_id) (ours n) in
        elim (Bool-cases acquired) [
          | inl got ↦ rw got (start-Balanced c a i t s at b (setting n) e refl refl locks (some n))
          | inr missed ↦
              rw missed
                (leave-Balanced c a i t s at b (setting n) e refl refl locks skipped_redis_lock)
        ]
    after_set-Balanced (setting n) lost_request e =
        leave-Balanced c a i t s at b (setting n) e refl refl s.locks raised
    after_set-Balanced (setting n) lost_reply e =
        leave-Balanced c a i t s at b (setting n) e refl refl _ raised
    after_set-Balanced _ d e = b

    after_eval-Balanced :
        (p : Phase) (d : Delivery) → t.phase ≡ p → Balanced c a (after_eval redis i t p d s)
    unfolding after_eval
    after_eval-Balanced (releasing n o) lost_request e =
        finish-Balanced c a i t s at b (releasing n o) e refl refl s.locks o
    after_eval-Balanced (releasing n o) _ e =
        finish-Balanced c a i t s at b (releasing n o) e refl refl _ o
    after_eval-Balanced _ d e = b

    cancel-Balanced :
        (p : Phase) (d : Delivery) → t.phase ≡ p → Balanced c a (cancel redis i t p d s)
    unfolding cancel
    cancel-Balanced waits_global d e = ground (arith, tally-put c a i t s at (ended cancelled))
    cancel-Balanced waits_agent d e = ground (arith, tally-put c a i t s at (ended cancelled))
    cancel-Balanced (setting n) lost_request e =
        leave-Balanced c a i t s at b (setting n) e refl refl s.locks cancelled
    cancel-Balanced (setting n) _ e =
        leave-Balanced c a i t s at b (setting n) e refl refl _ cancelled
    cancel-Balanced (running token) d e =
        after_run-Balanced c a i t s at b (running token) cancels e
    cancel-Balanced (releasing n end) lost_request e =
        leave-Balanced c a i t s at b (releasing n end) e refl refl s.locks (interrupted end)
    cancel-Balanced (releasing n end) _ e =
        leave-Balanced c a i t s at b (releasing n end) e refl refl _ (interrupted end)
    cancel-Balanced (ended o) d e = b

  first_phase-free :
      (req : RunRequest)
      → (has_agent (first_phase c req) ≡ false)
        × (has_global (first_phase c req) ≡ false)
        × (is_running (first_phase c req) ≡ false)
  unfolding first_phase
  first_phase-free req = ground arith

  submits-Balanced :
      (req : RunRequest) (s : Executor Store)
      → Balanced c a s
      → Balanced c a (step redis c (submits req) s)
  unfolding step
  submits-Balanced req s b =
      let t : Task = record { req = req; phase = first_phase c req } in
      ground (
        arith,
        first_phase-free req,
        tally-concat holds_global s.tasks t,
        tally-concat (holds_agent a) s.tasks t,
        tally-concat runs_now s.tasks t,
      )

  locks-Balanced :
      (locks : Store) (s : Executor Store)
      → Balanced c a s
      → Balanced c a (record s { locks = locks })
  locks-Balanced locks s b = record { global = b.global; agent = b.agent; gauge = b.gauge }

  pub Balanced-Kept : Kept redis c any_event (Balanced c a)
  unfolding step
  Balanced-Kept = record {
    submit = submits-Balanced;
    global = λ i t s at b. take_global-Balanced c a i t s at b t.phase refl;
    agent = λ i t s at b. take_agent-Balanced c a i t s at b t.phase refl;
    set = λ i d t s at ok b. after_set-Balanced i t s at b t.phase d refl;
    end = λ i e t s at b. after_run-Balanced c a i t s at b t.phase e refl;
    eval = λ i d t s at b. after_eval-Balanced i t s at b t.phase d refl;
    cancelling = λ i d t s at b. cancel-Balanced i t s at b t.phase d refl;
    expire = λ x s ok b. locks-Balanced _ s b;
    other_set = λ x n s b. locks-Balanced _ s b;
    other_eval = λ x n s b. locks-Balanced _ s b;
  }

  pub init-Balanced : (locks : Store) → Balanced c a (init c locks)
  unfolding init
  init-Balanced locks =
      omega (arith, tally-nil holds_global, tally-nil (holds_agent a), tally-nil runs_now)

  pub reachable-Balanced :
      (es : List Event) (locks : Store) → Balanced c a (run redis c es (init c locks))
  reachable-Balanced es locks =
      run_induction redis c Balanced-Kept es (init c locks) (all-any_event es) (init-Balanced locks)
