-- ===== src/Triggers/Executor/Progress/Completion.antt =====
-- Every submit can come to its end, within five wake-ups of each.
use saga_agents.Common.{ℕ, suc, ◌≤◌, ◌≡◌, refl, Bool, true, false, List, arith, all, inl, inr}
use saga_agents.Triggers.Lock.{LockService}
use saga_agents.Triggers.Executor.{
  Settings, Phase, waits_global, waits_agent, setting, running, releasing, ended, Executor, Event,
  submits, cancel_comes, expires, others_set, others_eval, init, step,
}
use saga_agents.Triggers.Executor.Safety.{is_over}
use saga_agents.Common.{length, [], ◌∷◌, zero, ◌*◌, total-le}
use saga_agents.Triggers.Executor.{run}
use saga_agents.Triggers.Executor.Progress.{waits_left, task_waits, waits_in, awaited}
use saga_agents.Triggers.Executor.Progress.Termination.{fewer_waits}
use saga_agents.Triggers.Executor.Progress.Deadlock.{
  Admits, Live, step-Live, run-Live, init-Live, someone_goes,
}

abbrev pub is_wakeup : Event → Bool
is_wakeup (submits req) = false
is_wakeup (cancel_comes i d) = false
is_wakeup (expires a) = false
is_wakeup (others_set a n) = false
is_wakeup (others_eval a n) = false
is_wakeup _ = true

awaited-is_wakeup : (i : ℕ) (p : Phase) → is_wakeup (awaited i p) ≡ true
awaited-is_wakeup i waits_global = refl
awaited-is_wakeup i waits_agent = refl
awaited-is_wakeup i (setting n) = refl
awaited-is_wakeup i (running token) = refl
awaited-is_wakeup i (releasing n end) = refl
awaited-is_wakeup i (ended o) = refl

waits_left-le : (p : Phase) → waits_left p ≤ 5
waits_left-le waits_global = omega arith
waits_left-le waits_agent = omega arith
waits_left-le (setting n) = omega arith
waits_left-le (running token) = omega arith
waits_left-le (releasing n end) = omega arith
waits_left-le (ended o) = omega arith

module _ (redis : LockService) (c : Settings) where
  open redis use {Store}

  stays_over :
      (s : Executor Store)
      → all is_over s.tasks ≡ true
      → all is_over (run redis c [] s).tasks ≡ true
  unfolding run
  stays_over s over = over

  -- Within `n` wake-ups of submits that wait, every submit comes to its end.
  abbrev Ends : Executor Store → ℕ → Type 0
  Ends s n =
      (es : List Event) × (all is_wakeup es ≡ true)
      × (length es ≤ n)
      × (all is_over (run redis c es s).tasks ≡ true)

  Ends-next :
      (n : ℕ) (s : Executor Store) (e : Event)
      → is_wakeup e ≡ true
      → Ends (step redis c e s) n
      → Ends s (suc n)
  unfolding run
  Ends-next n s e wakes (es, wake, short, over) = (e ∷ es, ground arith, omega (arith, short), over)

  Ends-within : Admits c → (n : ℕ) (s : Executor Store) → Live redis c s → waits_in s ≤ n → Ends s n
  Ends-within admits zero s l few = elim (someone_goes redis c admits s l) [
    | inl over ↦ ([], refl, omega arith, stays_over s over)
    | inr (i, t, at, free) ↦
        let absurd : ⊥ = omega (arith, fewer_waits redis c i t s at free, few) in elim absurd [ ]
  ]
  Ends-within admits (suc n) s l few = elim (someone_goes redis c admits s l) [
    | inl over ↦ ([], refl, omega arith, stays_over s over)
    | inr (i, t, at, free) ↦
        let e = awaited i t.phase in
        Ends-next n s e (awaited-is_wakeup i t.phase) (
          Ends-within admits n (step redis c e s) (step-Live redis c e s l)
            (omega (arith, fewer_waits redis c i t s at free, few)))
  ]

  -- Where at least one run is allowed, and one of each enabled agent: from every state that a
  -- schedule reaches, some schedule of wake-ups alone (a permit, the answer to `set`, the report, the
  -- answer to `eval`) brings all submits to their end, with five events for each submit at most.
  pub can_complete :
      Admits c
      → (before : List Event) (locks : Store)
      → (es : List Event) × (all is_wakeup es ≡ true)
        × (length es ≤ 5 * length (run redis c before (init c locks)).tasks)
        × (all is_over (run redis c es (run redis c before (init c locks))).tasks ≡ true)
  can_complete admits before locks =
      let s = run redis c before (init c locks) in
      Ends-within admits (5 * length s.tasks) s
        (run-Live redis c before (init c locks) (init-Live redis c locks))
        (total-le task_waits 5 (λ t. waits_left-le t.phase) s.tasks)
