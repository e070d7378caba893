-- ===== src/Triggers/Listener/Rounds.antt =====
-- One round of the tick loop with no message in between, against a description that walks the
-- states once.
use saga_agents.Common.{
  ℕ, suc, ◌≡◌, refl, ◌∙◌, List, [], ◌∷◌, ◌++◌, length, if◌then◌else◌, arith, Bool-cases, inl, inr,
  get_elem?-append, set-append, length-concat, append_assoc,
}
use saga_agents.Triggers.Base.{RunRequest}
use saga_agents.Triggers.Debounce.{due, reset}
use saga_agents.Triggers.Listener.{
  AgentTriggerState, Message, handle_messages, request_of, fire, dispatch_from,
  check_due_and_dispatch,
}
use saga_agents.Triggers.Listener.Dispatch.{dispatch_from-due, dispatch_from-not_due}

-- The requests of the states that are due when they are visited, in the order of the states.
abbrev pub due_requests : (ℕ → ℕ) → ℕ → List AgentTriggerState → List RunRequest
due_requests now i [] = []
due_requests now i (s ∷ rest) =
    if due (now i) s.debouncer
    then request_of s ∷ due_requests now (suc i) rest
    else due_requests now (suc i) rest

-- The states, with those reset that are due when they are visited.
abbrev pub fired : (ℕ → ℕ) → ℕ → List AgentTriggerState → List AgentTriggerState
fired now i [] = []
fired now i (s ∷ rest) = (if due (now i) s.debouncer then fire s else s) ∷ fired now (suc i) rest

abbrev pub silence : ℕ → List Message
silence i = []

module _ (now : ℕ → ℕ) where
  abbrev Walks : List AgentTriggerState → List AgentTriggerState → Type 0
  Walks before rest =
      dispatch_from now silence (length rest) (length before) (before ++ rest)
      ≡ (due_requests now (length before) rest, before ++ fired now (length before) rest)

  -- The walk goes on behind one more state.
  walk_on :
      (before : List AgentTriggerState) (v : AgentTriggerState) (rest : List AgentTriggerState)
      → Walks (before ++ v ∷ []) rest
      → dispatch_from now silence (length rest) (suc (length before)) (before ++ v ∷ rest) ≡ (
        due_requests now (suc (length before)) rest,
        before ++ v ∷ fired now (suc (length before)) rest,
      )
  walk_on before v rest ih = simp (length-concat, append_assoc) at ih

  walk : (before rest : List AgentTriggerState) → Walks before rest
  unfolding dispatch_from handle_messages
  walk before [] = refl
  walk before (s ∷ rest) =
      let at = get_elem?-append before s rest in
      elim (Bool-cases (due (now (length before)) s.debouncer)) [
        | inl d ↦
            let later = walk_on before (fire s) rest (walk (before ++ fire s ∷ []) rest) in
            rw d (
              dispatch_from-due now silence (length rest) (length before) (before ++ s ∷ rest) s at
                d
              ∙ rw (set-append before s (fire s) rest, later))
        | inr d ↦
            let later = walk_on before s rest (walk (before ++ s ∷ []) rest) in
            rw d (
              dispatch_from-not_due now silence (length rest) (length before) (before ++ s ∷ rest) s
                at d
              ∙ later)
      ]

pub check_due_and_dispatch-eq :
    (now : ℕ → ℕ) (states : List AgentTriggerState)
    → check_due_and_dispatch now silence states ≡ (due_requests now 0 states, fired now 0 states)
unfolding check_due_and_dispatch
check_due_and_dispatch-eq now states = walk now [] states

due_requests-fired :
    (t i : ℕ) (states : List AgentTriggerState)
    → due_requests (λ _. t) i (fired (λ _. t) i states) ≡ []
unfolding fire due reset
due_requests-fired t i [] = refl
due_requests-fired t i (s ∷ rest) = ground (arith, due_requests-fired t (suc i) rest)

-- A burst of events is served once: a second round at the same time requests nothing.
check_due_and_dispatch_twice :
    (t : ℕ) (states : List AgentTriggerState)
    → (check_due_and_dispatch (λ _. t) silence (check_due_and_dispatch (λ _. t) silence states).1).0
      ≡ []
check_due_and_dispatch_twice t states =
    rw
      (
        check_due_and_dispatch-eq (λ _. t) states,
        check_due_and_dispatch-eq (λ _. t) (fired (λ _. t) 0 states),
      )
      (due_requests-fired t 0 states)
