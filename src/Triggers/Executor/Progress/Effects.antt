-- ===== src/Triggers/Executor/Progress/Effects.antt =====
-- The events that a submit takes note of, and how many there can be of them.
use saga_agents.Common.{
  ℕ, ◌+◌, ◌≤◌, ◌<◌, ◌≡◌, refl, Bool, true, false, not, none, some, arith, get_elem?, set, total,
  total-set, one_if, ltb, Bool-cases, Option-cases, inl, inr,
}
use saga_agents.Triggers.Lock.{LockService, ours, lock_key}
use saga_agents.Triggers.Executor.{
  Settings, Phase, waits_global, waits_agent, setting, running, releasing, ended, Task, Executor,
  Delivery, answered, lost_request, lost_reply, RunEnd, returns, raises, cancels, reported, failed,
  raised, cancelled, interrupted, skipped_redis_lock, Event, submits, global_permit, agent_permit,
  set_ends, run_ends, eval_ends, cancel_comes, after_run, take_global, take_agent, after_set,
  after_eval, cancel, at_task,
}
use saga_agents.Triggers.Executor.Safety.{has_ended}
use saga_agents.Triggers.Executor.Progress.{waits_left, task_waits, waits_in}

-- The submit takes the permit, is at the `await` that has ended, or is cancelled before its end.
abbrev takes_global : ℕ → Phase → Bool
takes_global free waits_global = ltb 0 free
takes_global free _ = false

abbrev takes_agent : ℕ → Phase → Bool
takes_agent free waits_agent = ltb 0 free
takes_agent free _ = false

abbrev awaits_set : Phase → Bool
awaits_set (setting n) = true
awaits_set _ = false

abbrev awaits_run : Phase → Bool
awaits_run (running token) = true
awaits_run _ = false

abbrev awaits_eval : Phase → Bool
awaits_eval (releasing n end) = true
awaits_eval _ = false

abbrev pub is_submit : Event → Bool
is_submit (submits req) = true
is_submit _ = false

module _ {Store : Type 0} where
  abbrev pub on_task : Executor Store → ℕ → (Task → Bool) → Bool
  on_task s i f = elim (get_elem? s.tasks i) [ none ↦ false | some t ↦ f t ]

  unfoldable pub is_effective : Event → Executor Store → Bool
  is_effective (global_permit i) s = on_task s i (λ t. takes_global s.global_sem t.phase)
  is_effective (agent_permit i) s =
      on_task s i (λ t. takes_agent (s.agent_sems t.req.agent_id) t.phase)
  is_effective (set_ends i d) s = on_task s i (λ t. awaits_set t.phase)
  is_effective (run_ends i e) s = on_task s i (λ t. awaits_run t.phase)
  is_effective (eval_ends i d) s = on_task s i (λ t. awaits_eval t.phase)
  is_effective (cancel_comes i d) s = on_task s i (λ t. not (has_ended t.phase))
  is_effective _ s = false

  -- One wait fewer at least, or nothing at all has changed.
  abbrev pub Advances : Executor Store → Executor Store → Bool → Type 0
  Advances s s' b = (waits_in s' + one_if b ≤ waits_in s) × (b ≡ false → s' ≡ s)

  unmoved : (s : Executor Store) → Advances s s false
  unmoved s = (omega arith, λ e. refl)

  moved : (s s' : Executor Store) → waits_in s' < waits_in s → Advances s s' true
  moved s s' less = (ground arith, λ e. cc)

module _ (redis : LockService) (c : Settings) where
  open redis use {Store, set_nx}

  module _ (i : ℕ) (t : Task) (s : Executor Store) (at : get_elem? s.tasks i ≡ some t) where
    put :
        (p : Phase)
        → total task_waits (set s.tasks i (record t { phase = p })) + waits_left t.phase
          ≡ waits_in s + waits_left p
    put p = total-set task_waits s.tasks i t (record t { phase = p }) at

    pub take_global-Advances :
        (p : Phase) → t.phase ≡ p → Advances s (take_global i t p s) (takes_global s.global_sem p)
    unfolding take_global
    take_global-Advances waits_global e = elim (Bool-cases (ltb 0 s.global_sem)) [
      | inl free ↦ rw free (moved s _ (ground (arith, put waits_agent)))
      | inr taken ↦ rw taken (unmoved s)
    ]
    take_global-Advances _ e = unmoved s

    pub take_agent-Advances :
        (p : Phase)
        → t.phase ≡ p
        → Advances s (take_agent c i t p s) (takes_agent (s.agent_sems t.req.agent_id) p)
    unfolding take_agent
    take_agent-Advances waits_agent e = elim (Bool-cases (ltb 0 (s.agent_sems t.req.agent_id))) [
      | inl free ↦ rw free (moved s _ (ground (arith, put (setting s.uuids), put (running none))))
      | inr taken ↦ rw taken (unmoved s)
    ]
    take_agent-Advances _ e = unmoved s

    pub after_set-Advances :
        (p : Phase) (d : Delivery)
        → t.phase ≡ p
        → Advances s (after_set redis i t p d s) (awaits_set p)
    unfolding after_set
    after_set-Advances (setting n) answered e =
        let (locks, acquired) = set_nx s.locks (lock_key t.req.agent_id) (ours n) in
        elim (Bool-cases acquired) [
          | inl got ↦ rw got (moved s _ (ground (arith, put (running (some n)))))
          | inr missed ↦ rw missed (moved s _ (ground (arith, put (ended skipped_redis_lock))))
        ]
    after_set-Advances (setting n) lost_request e = moved s _ (ground (arith, put (ended raised)))
    after_set-Advances (setting n) lost_reply e = moved s _ (ground (arith, put (ended raised)))
    after_set-Advances _ d e = unmoved s

    pub after_run-Advances :
        (p : Phase) (end : RunEnd) → t.phase ≡ p → Advances s (after_run i t p end s) (awaits_run p)
    unfolding after_run
    after_run-Advances (running none) (returns status) e =
        moved s _ (ground (arith, put (ended (reported status))))
    after_run-Advances (running none) raises e = moved s _ (ground (arith, put (ended failed)))
    after_run-Advances (running none) cancels e =
        moved s _ (ground (arith, put (ended (interrupted cancels))))
    after_run-Advances (running (some n)) end e = moved s _ (ground (arith, put (releasing n end)))
    after_run-Advances _ end e = unmoved s

    pub after_eval-Advances :
        (p : Phase) (d : Delivery)
        → t.phase ≡ p
        → Advances s (after_eval redis i t p d s) (awaits_eval p)
    unfolding after_eval
    after_eval-Advances (releasing n (returns status)) d e =
        moved s _ (ground (arith, put (ended (reported status))))
    after_eval-Advances (releasing n raises) d e = moved s _ (ground (arith, put (ended failed)))
    after_eval-Advances (releasing n cancels) d e =
        moved s _ (ground (arith, put (ended (interrupted cancels))))
    after_eval-Advances _ d e = unmoved s

    pub cancel-Advances :
        (p : Phase) (d : Delivery)
        → t.phase ≡ p
        → Advances s (cancel redis i t p d s) (not (has_ended p))
    unfolding cancel
    cancel-Advances waits_global d e = moved s _ (ground (arith, put (ended cancelled)))
    cancel-Advances waits_agent d e = moved s _ (ground (arith, put (ended cancelled)))
    cancel-Advances (setting n) d e = moved s _ (ground (arith, put (ended cancelled)))
    cancel-Advances (running token) d e = after_run-Advances (running token) cancels e
    cancel-Advances (releasing n end) d e =
        moved s _ (ground (arith, put (ended (interrupted end))))
    cancel-Advances (ended o) d e = unmoved s

  pub at_task-Advances :
      (i : ℕ) (f : Task → Executor Store → Executor Store) (g : Task → Bool) (s : Executor Store)
      → ((t : Task) → get_elem? s.tasks i ≡ some t → Advances s (f t s) (g t))
      → Advances s (at_task redis i f s) (on_task s i g)
  at_task-Advances i f g s h = elim (Option-cases (get_elem? s.tasks i)) [
    | inl e ↦ rw (e, at_task, on_task) (unmoved s)
    | inr (t, e) ↦ rw (e, at_task, on_task) (h t e)
  ]
