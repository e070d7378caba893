-- ===== src/Triggers/Executor/Induction.antt =====
-- Induction over schedules: a property that every kind of step keeps holds in every state reached.
use mathlib.Core.Bool.{and-eq-true_iff}
use saga_agents.Common.{
  Bool, true, all, refl, ℕ, String, ◌≡◌, List, [], ◌∷◌, some, get_elem?, Option-cases, inl, inr,
}
use saga_agents.Triggers.Base.{RunRequest}
use saga_agents.Triggers.Lock.{LockService}
use saga_agents.Triggers.Executor.{
  Settings, Task, Executor, Delivery, RunEnd, Event, submits, global_permit, agent_permit, set_ends,
  run_ends, eval_ends, expires, others_set, others_eval, after_run, take_global, take_agent,
  after_set, after_eval, cancel, cancel_comes, at_task, step, run,
}

module _ (redis : LockService) (c : Settings) where
  open redis use {Store}

  -- What is to be shown of each kind of step, in schedules of the allowed events.
  pub record Kept (allowed : Event → Bool) (P : Executor Store → Type 0) : Type 0 where
    pub submit : (req : RunRequest) (s : Executor Store) → P s → P (step redis c (submits req) s)
    pub global :
        (i : ℕ) (t : Task) (s : Executor Store)
        → get_elem? s.tasks i ≡ some t
        → P s
        → P (take_global i t t.phase s)
    pub agent :
        (i : ℕ) (t : Task) (s : Executor Store)
        → get_elem? s.tasks i ≡ some t
        → P s
        → P (take_agent c i t t.phase s)
    pub set :
        (i : ℕ) (d : Delivery) (t : Task) (s : Executor Store)
        → get_elem? s.tasks i ≡ some t
        → allowed (set_ends i d) ≡ true
        → P s
        → P (after_set redis i t t.phase d s)
    pub end :
        (i : ℕ) (e : RunEnd) (t : Task) (s : Executor Store)
        → get_elem? s.tasks i ≡ some t
        → P s
        → P (after_run i t t.phase e s)
    pub eval :
        (i : ℕ) (d : Delivery) (t : Task) (s : Executor Store)
        → get_elem? s.tasks i ≡ some t
        → P s
        → P (after_eval redis i t t.phase d s)
    pub cancelling :
        (i : ℕ) (d : Delivery) (t : Task) (s : Executor Store)
        → get_elem? s.tasks i ≡ some t
        → P s
        → P (cancel redis i t t.phase d s)
    pub expire :
        (a : String) (s : Executor Store)
        → allowed (expires a) ≡ true
        → P s
        → P (step redis c (expires a) s)
    pub other_set :
        (a : String) (n : ℕ) (s : Executor Store) → P s → P (step redis c (others_set a n) s)
    pub other_eval :
        (a : String) (n : ℕ) (s : Executor Store) → P s → P (step redis c (others_eval a n) s)

  module _ {allowed : Event → Bool} {P : Executor Store → Type 0} (k : Kept allowed P) where
    at_task-Kept :
        (i : ℕ) (f : Task → Executor Store → Executor Store) (s : Executor Store)
        → P s
        → ((t : Task) → get_elem? s.tasks i ≡ some t → P (f t s))
        → P (at_task redis i f s)
    at_task-Kept i f s p h = elim (Option-cases (get_elem? s.tasks i)) [
      | inl e ↦ rw (e, at_task) p
      | inr (t, e) ↦ rw (e, at_task) (h t e)
    ]

    pub step_induction :
        (e : Event) (s : Executor Store) → allowed e ≡ true → P s → P (step redis c e s)
    unfolding step
    step_induction (submits req) s ok p = k.submit req s p
    step_induction (global_permit i) s ok p =
        at_task-Kept i (λ t. take_global i t t.phase) s p λ t at. k.global i t s at p
    step_induction (agent_permit i) s ok p =
        at_task-Kept i (λ t. take_agent c i t t.phase) s p λ t at. k.agent i t s at p
    step_induction (set_ends i d) s ok p =
        at_task-Kept i (λ t. after_set redis i t t.phase d) s p λ t at. k.set i d t s at ok p
    step_induction (run_ends i e) s ok p =
        at_task-Kept i (λ t. after_run i t t.phase e) s p λ t at. k.end i e t s at p
    step_induction (eval_ends i d) s ok p =
        at_task-Kept i (λ t. after_eval redis i t t.phase d) s p λ t at. k.eval i d t s at p
    step_induction (cancel_comes i d) s ok p =
        at_task-Kept i (λ t. cancel redis i t t.phase d) s p λ t at. k.cancelling i d t s at p
    step_induction (expires a) s ok p = k.expire a s ok p
    step_induction (others_set a n) s ok p = k.other_set a n s p
    step_induction (others_eval a n) s ok p = k.other_eval a n s p

    pub run_induction :
        (es : List Event) (s : Executor Store) → all allowed es ≡ true → P s → P (run redis c es s)
    unfolding run
    run_induction [] s ok p = p
    run_induction (e ∷ es) s ok p =
        let (now, later) = (and-eq-true_iff _ _).0 ok in
        run_induction es (step redis c e s) later (step_induction e s now p)

abbrev pub any_event : Event → Bool
any_event e = true

pub all-any_event : (es : List Event) → all any_event es ≡ true
all-any_event [] = refl
all-any_event (e ∷ es) = all-any_event es
