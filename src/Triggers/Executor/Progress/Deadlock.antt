-- ===== src/Triggers/Executor/Progress/Deadlock.antt =====
-- No deadlock: where a submit is not over, the event that one of them waits for can come.
use saga_agents.Common.{
  ℕ, ◌<◌, String, ◌≡◌, refl, Bool, true, false, not, ◌⊎◌, List, some, arith, get_elem?, all, tally,
  tally_mono, tally-cases, tally-le-add, tally-zero_at, all_of_tally, Bool-cases, inl, inr,
}
use saga_agents.Common.Dict.{lookup}
use saga_agents.Triggers.Lock.{LockService}
use saga_agents.Triggers.Executor.{
  Settings, Phase, waits_global, waits_agent, ended, Task, Executor, Event, is_enabled, agent_limit,
  init, step,
}
use saga_agents.Triggers.Executor.Invariant.{
  Balanced, has_agent, has_global, holds_global, holds_agent,
}
use saga_agents.Triggers.Executor.Safety.{has_ended, is_over}
use saga_agents.Triggers.Executor.Progress.{can_go}
use saga_agents.Common.{[], ◌∷◌, ◌||◌}
use saga_agents.Triggers.Executor.{run}
use saga_agents.Triggers.Executor.Induction.{step_induction}
use saga_agents.Triggers.Executor.Invariant.{Balanced-Kept, init-Balanced}
use saga_agents.Triggers.Executor.Progress.Permits.{stray, NoStray, NoStray-Kept, init-NoStray}

-- Permits are there to be had: at least one run is allowed, and one of each enabled agent.
pub record Admits (c : Settings) : Type 0 where
  pub global : 0 < c.global_limit
  pub agents : (a : String) → is_enabled (lookup a c.definitions) ≡ true → 0 < agent_limit c a

abbrev inside : Task → Bool
inside t = has_agent t.phase

abbrev is_second : Phase → Bool
is_second waits_agent = true
is_second _ = false

abbrev waits_second : Task → Bool
waits_second t = is_second t.phase

abbrev is_first : Phase → Bool
is_first waits_global = true
is_first _ = false

abbrev waits_first : Task → Bool
waits_first t = is_first t.phase

unfinished-cases :
    (p : Phase)
    → not (has_ended p) ≡ true
    → (has_agent p ≡ true) ⊎ (is_second p || is_first p ≡ true)
unfinished-cases waits_global h = inr refl
unfinished-cases waits_agent h = inr refl
unfinished-cases (ended o) h = cc
unfinished-cases _ h = inl refl

abbrev outside : Task → Bool
outside t = waits_second t || waits_first t

outside-cases : (t : Task) → outside t ≡ true → (waits_second t ≡ true) ⊎ (waits_first t ≡ true)
outside-cases t h = elim (Bool-cases (waits_second t)) [
  | inl is ↦ inl is
  | inr is_not ↦ inr (ground arith)
]

global-cases : (p : Phase) → has_global p ≡ true → (has_agent p ≡ true) ⊎ (is_second p ≡ true)
global-cases waits_global h = cc
global-cases waits_agent h = inr refl
global-cases (ended o) h = cc
global-cases _ h = inl refl

module _ (redis : LockService) (c : Settings) where
  open redis use {Store}

  -- What holds in every state that a schedule reaches.
  pub record Live (s : Executor Store) : Type 0 where
    pub balanced : (a : String) → Balanced c a s
    pub no_stray : NoStray c s

  pub step-Live : (e : Event) (s : Executor Store) → Live s → Live (step redis c e s)
  step-Live e s l = record {
    balanced = λ a. step_induction redis c (Balanced-Kept redis c a) e s refl (l.balanced a);
    no_stray = step_induction redis c (NoStray-Kept redis c) e s refl l.no_stray;
  }

  pub run-Live : (es : List Event) (s : Executor Store) → Live s → Live (run redis c es s)
  unfolding run
  run-Live [] s l = l
  run-Live (e ∷ es) s l = run-Live es (step redis c e s) (step-Live e s l)

  pub init-Live : (locks : Store) → Live (init c locks)
  init-Live locks = record {
    balanced = λ a. init-Balanced redis c a locks;
    no_stray = init-NoStray redis c locks;
  }

  inside_goes :
      (t : Task) (s : Executor Store) (p : Phase) → has_agent p ≡ true → can_go s t p ≡ true
  inside_goes t s waits_global h = cc
  inside_goes t s waits_agent h = cc
  inside_goes t s (ended o) h = cc
  inside_goes t s _ h = refl

  second_goes :
      (t : Task) (s : Executor Store) (p : Phase)
      → is_second p ≡ true
      → 0 < s.agent_sems t.req.agent_id
      → can_go s t p ≡ true
  second_goes t s waits_agent h free = ground arith
  second_goes t s _ h free = cc

  first_goes :
      (t : Task) (s : Executor Store) (p : Phase)
      → is_first p ≡ true
      → 0 < s.global_sem
      → can_go s t p ≡ true
  first_goes t s waits_global h free = ground arith
  first_goes t s _ h free = cc

  enabled_of :
      (t : Task) (p : Phase)
      → is_second p ≡ true
      → t.phase ≡ p
      → stray c t ≡ false
      → is_enabled (lookup t.req.agent_id c.definitions) ≡ true
  enabled_of t waits_agent h e known = ground arith
  enabled_of t _ h e known = cc

  module _ (admits : Admits c) (s : Executor Store) (l : Live s) where
    -- The permit is there for the first that waits for its agent, where nobody is inside.
    agent_free :
        (i : ℕ) (t : Task)
        → get_elem? s.tasks i ≡ some t
        → is_second t.phase ≡ true
        → tally inside s.tasks ≡ 0
        → 0 < s.agent_sems t.req.agent_id
    agent_free i t at waits nobody =
        let a = t.req.agent_id in
        let limit =
          admits.agents a
            (enabled_of t t.phase waits refl (tally-zero_at (stray c) s.tasks i t l.no_stray at)) in
        let b = (l.balanced a).agent in
        let below = tally_mono (holds_agent a) inside (λ x h. ground arith) s.tasks in
        omega (arith, limit, b, below, nobody)

    global_free : tally inside s.tasks ≡ 0 → tally waits_second s.tasks ≡ 0 → 0 < s.global_sem
    global_free nobody nobody_waits =
        let b = (l.balanced "").global in
        let below =
          tally-le-add holds_global inside waits_second (λ t h. global-cases t.phase h) s.tasks in
        omega (arith, admits.global, b, below, nobody, nobody_waits)

    none_left :
        tally inside s.tasks ≡ 0
        → tally waits_second s.tasks ≡ 0
        → tally waits_first s.tasks ≡ 0
        → tally (λ t. not (is_over t)) s.tasks ≡ 0
    none_left nobody nobody_waits nobody_comes =
        let some_left =
          tally-le-add (λ t. not (is_over t)) inside outside (λ t h. unfinished-cases t.phase h)
            s.tasks in
        let waiting = tally-le-add outside waits_second waits_first outside-cases s.tasks in
        omega (arith, some_left, waiting, nobody, nobody_waits, nobody_comes)

    pub someone_goes :
        (all is_over s.tasks ≡ true)
        ⊎ ((i : ℕ) × (t : Task) × (get_elem? s.tasks i ≡ some t) × (can_go s t t.phase ≡ true))
    someone_goes = elim (tally-cases inside s.tasks) [
      | inr (i, t, at, is) ↦ inr (i, t, at, inside_goes t s t.phase is)
      | inl nobody ↦ elim (tally-cases waits_second s.tasks) [
        | inr (i, t, at, is) ↦
            inr (i, t, at, second_goes t s t.phase is (agent_free i t at is nobody))
        | inl nobody_waits ↦ elim (tally-cases waits_first s.tasks) [
          | inr (i, t, at, is) ↦
              inr (i, t, at, first_goes t s t.phase is (global_free nobody nobody_waits))
          | inl nobody_comes ↦
              inl (all_of_tally is_over s.tasks (none_left nobody nobody_waits nobody_comes))
        ]
      ]
    ]
