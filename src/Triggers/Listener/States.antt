-- ===== src/Triggers/Listener/States.antt =====
-- The states that a listener begins with.
use saga_agents.Common.{
  ◌∙◌, ℕ, zero, suc, ◌≤◌, String, ◌≡◌, refl, arith, Bool, true, false, List, [], ◌∷◌, ◌++◌, some,
  get_elem?, All, All-append, All-mono, All-if, ap, sym, if◌then◌else◌,
}
use saga_agents.Common.Dict.{Dict}
use saga_agents.Common.Int.{ℤ, pos, negsuc}
use saga_agents.Config.Models.{AgentDefinition, Trigger, EventTrigger, event}
use saga_agents.Triggers.Debounce
use saga_agents.Triggers.Listener.{AgentTriggerState, delay_of, state_of, states_of_triggers, init}

get_elem?-append_left :
    {A : Type 0} (xs ys : List A) (k : ℕ) (x : A)
    → get_elem? xs k ≡ some x
    → get_elem? (xs ++ ys) k ≡ some x
get_elem?-append_left [] ys k x h = cc
get_elem?-append_left (y ∷ xs) ys zero x h = h
get_elem?-append_left (y ∷ xs) ys (suc k) x h = get_elem?-append_left xs ys k x h

get_elem?-append_right :
    {A : Type 0} (xs ys : List A) (k : ℕ) (x : A)
    → get_elem? ys k ≡ some x
    → (k' : ℕ) × (get_elem? (xs ++ ys) k' ≡ some x)
get_elem?-append_right [] ys k x h = (k, h)
get_elem?-append_right (y ∷ xs) ys k x h =
    let (k', found) = get_elem?-append_right xs ys k x h in (suc k', found)

get_elem?-if_left :
    {A : Type 0} (b : Bool) (xs ys : List A) (k : ℕ) {x : A}
    → b ≡ true
    → get_elem? xs k ≡ some x
    → get_elem? (if b then xs ++ ys else ys) k ≡ some x
get_elem?-if_left true xs ys k {x} on h = get_elem?-append_left xs ys k x h
get_elem?-if_left false xs ys k on h = cc

get_elem?-if_right :
    {A : Type 0} (b : Bool) (xs ys : List A) (k : ℕ) (x : A)
    → get_elem? ys k ≡ some x
    → (k' : ℕ) × (get_elem? (if b then xs ++ ys else ys) k' ≡ some x)
get_elem?-if_right true xs ys k x h = get_elem?-append_right xs ys k x h
get_elem?-if_right false xs ys k x h = (k, h)

module _ (second : ℕ) where
  -- The state is that of an event trigger of the list, and its debouncer waits a second at least.
  abbrev pub IsTriggerState : List Trigger → AgentTriggerState → Type 0
  IsTriggerState triggers s =
      (j : ℕ) × (t : EventTrigger) × (get_elem? triggers j ≡ some (event t))
      × (s.topics ≡ t.topics)
      × (s.debouncer.delay ≡ delay_of second t.debounce_minutes)
      × (second ≤ s.debouncer.delay)

  -- The state is that of an enabled agent of the table.
  abbrev pub IsAgentState : Dict AgentDefinition → AgentTriggerState → Type 0
  IsAgentState definitions s =
      (i : ℕ) × (d : AgentDefinition) × (get_elem? definitions i ≡ some (s.agent_id, d))
      × (d.enabled ≡ true)
      × IsTriggerState d.triggers s

  second-le-delay_of : (minutes : ℤ) → second ≤ delay_of second minutes
  unfolding delay_of
  second-le-delay_of (pos minutes) = omega arith
  second-le-delay_of (negsuc n) = omega arith

  later :
      (trigger : Trigger) (rest : List Trigger) (s : AgentTriggerState)
      → IsTriggerState rest s
      → IsTriggerState (trigger ∷ rest) s
  later trigger rest s (j, t, at, topics, delay, long) = (suc j, t, at, topics, delay, long)

  abbrev Named : String → List Trigger → AgentTriggerState → Type 0
  Named id triggers s = (s.agent_id ≡ id) × IsTriggerState triggers s

  states_of_triggers-IsTriggerState :
      (id : String) (triggers : List Trigger)
      → All (Named id triggers) (states_of_triggers second id triggers)
  unfolding states_of_triggers state_of Debounce.init
  states_of_triggers-IsTriggerState id [] = tt
  states_of_triggers-IsTriggerState id (event t ∷ rest) = (
    (refl, (zero, t, refl, refl, refl, second-le-delay_of t.debounce_minutes)),
    All-mono (Named id rest) (Named id (event t ∷ rest)) (λ s h. (h.0, later (event t) rest s h.1))
        (states_of_triggers second id rest) (states_of_triggers-IsTriggerState id rest),
  )
  states_of_triggers-IsTriggerState id (x ∷ rest) =
      All-mono (Named id rest) (Named id (x ∷ rest)) (λ s h. (h.0, later x rest s h.1))
        (states_of_triggers second id rest) (states_of_triggers-IsTriggerState id rest)

  behind :
      (x : String × AgentDefinition) (rest : Dict AgentDefinition) (s : AgentTriggerState)
      → IsAgentState rest s
      → IsAgentState (x ∷ rest) s
  behind x rest s (i, d, at, on, state) = (suc i, d, at, on, state)

  pub init-IsAgentState :
      (definitions : Dict AgentDefinition)
      → All (IsAgentState definitions) (init second definitions)
  unfolding init
  init-IsAgentState [] = tt
  init-IsAgentState ((id, d) ∷ rest) =
      let tail =
        All-mono (IsAgentState rest) (IsAgentState ((id, d) ∷ rest)) (behind (id, d) rest)
          (init second rest) (init-IsAgentState rest) in
      All-if (IsAgentState ((id, d) ∷ rest)) d.enabled
        (states_of_triggers second id d.triggers ++ init second rest) (init second rest)
        (λ on.
          All-append (IsAgentState ((id, d) ∷ rest)) (states_of_triggers second id d.triggers)
            (init second rest)
            (All-mono (Named id d.triggers) (IsAgentState ((id, d) ∷ rest))
              (λ s h. (zero, d, ap (λ k. some (k, d)) (sym h.0), on, h.1))
              (states_of_triggers second id d.triggers)
              (states_of_triggers-IsTriggerState id d.triggers))
            tail)
        tail

  states_of_triggers_complete :
      (id : String) (triggers : List Trigger) (j : ℕ) (t : EventTrigger)
      → get_elem? triggers j ≡ some (event t)
      → (k : ℕ) × (get_elem? (states_of_triggers second id triggers) k
          ≡ some (state_of second id t))
  unfolding states_of_triggers
  states_of_triggers_complete id [] j t at = cc
  states_of_triggers_complete id (event u ∷ rest) zero t at =
      let same : u ≡ t = cc in (zero, ap (λ x. some (state_of second id x)) same)
  states_of_triggers_complete id (x ∷ rest) zero t at = cc
  states_of_triggers_complete id (event u ∷ rest) (suc j) t at =
      let (k, found) = states_of_triggers_complete id rest j t at in (suc k, found)
  states_of_triggers_complete id (x ∷ rest) (suc j) t at =
      states_of_triggers_complete id rest j t at

  -- Each event trigger of an enabled agent has its state.
  pub init_complete :
      (definitions : Dict AgentDefinition) (i : ℕ) (id : String) (d : AgentDefinition) (j : ℕ)
      (t : EventTrigger)
      → get_elem? definitions i ≡ some (id, d)
      → d.enabled ≡ true
      → get_elem? d.triggers j ≡ some (event t)
      → (k : ℕ) × (s : AgentTriggerState) × (get_elem? (init second definitions) k ≡ some s)
        × (s.agent_id ≡ id)
        × (s.topics ≡ t.topics)
  unfolding init state_of
  init_complete [] i id d j t at on trigger = cc
  init_complete ((key, e) ∷ rest) zero id d j t at on trigger =
      let same_key : key ≡ id = cc in
      let same : e ≡ d = cc in
      let (k, found) =
        states_of_triggers_complete key e.triggers j t
          (ap (λ x. get_elem? x.triggers j) same ∙ trigger) in
      (
        k,
        state_of second key t,
        get_elem?-if_left e.enabled (states_of_triggers second key e.triggers) (init second rest) k
            (ap (λ x. x.enabled) same ∙ on) found,
        same_key,
        refl,
      )
  init_complete ((key, e) ∷ rest) (suc i) id d j t at on trigger =
      let (k, s, found, named, topics) = init_complete rest i id d j t at on trigger in
      let (k', found') =
        get_elem?-if_right e.enabled (states_of_triggers second key e.triggers) (init second rest) k
          s found in
      (k', s, found', named, topics)
