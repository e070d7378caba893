-- ===== src/Triggers/Listener/Ticks/Served.antt =====
-- The tick loop serves an event once its debounce delay has passed.
use native.Mathlib.Decide.{ℕ_discrete}
use saga_agents.Common.{
  contains, ℕ, zero, suc, ◌+◌, ◌<◌, ◌≤◌, String, ◌≡◌, ◌≢◌, refl, ap, ◌∙◌, ◌⊎◌, inl, inr, true,
  false, List, [], ◌∷◌, ◌++◌, map, length, get_elem?, none, some, arith, Bool-cases, Option-cases,
  get_elem?-map,
}
use saga_agents.Triggers.Base.{RunRequest}
use saga_agents.Triggers.Debounce.{due, mark}
use saga_agents.Triggers.Listener.{
  AgentTriggerState, Message, mark_state, handle_message, handle_messages, dispatch_from,
  check_due_and_dispatch,
}
use saga_agents.Triggers.Listener.Dispatch.{
  requested, matched, mark_states, get_elem?-handle_messages, requested_head, dispatch_from-due,
  dispatch_from-not_due, dispatch_from-end, awaited, awaited-ne, mark_state-Keeps,
}
use saga_agents.Triggers.Listener.Ticks.{Turn, tick_loop}

-- No message of the turns has one of these topics.
abbrev pub Quiet : List String → List Turn → Type 0
Quiet topics [] = Unit {0}
Quiet topics (t ∷ ts) =
    (matched topics t.asleep ≡ false)
    × ((i : ℕ) → matched topics (t.meanwhile i) ≡ false)
    × Quiet topics ts

mark_states-unmatched :
    (ms : List Message) (s : AgentTriggerState) → matched s.topics ms ≡ false → mark_states ms s ≡ s
unfolding mark_states mark_state
mark_states-unmatched [] s h = refl
mark_states-unmatched (m ∷ ms) s h = elim (Bool-cases (contains m.topic s.topics)) [
  | inl here ↦ cc
  | inr not_here ↦
      let later : matched s.topics ms ≡ false = rw not_here at h in
      rw not_here (mark_states-unmatched ms s later)
]

none_behind :
    {A : Type 0} → (xs : List A) (i k : ℕ) → get_elem? xs i ≡ none → i ≤ k → get_elem? xs k ≡ none
none_behind [] i k h le = refl
none_behind (x ∷ xs) zero k h le = cc
none_behind (x ∷ xs) (suc i) zero h le = let absurd : ⊥ = omega (arith, le) in elim absurd [ ]
none_behind (x ∷ xs) (suc i) (suc k) h le = none_behind xs i k h (omega (arith, le))

requested-left :
    (a : String) (rs qs : List RunRequest) → requested a rs ≡ true → requested a (rs ++ qs) ≡ true
requested-left a [] qs h = cc
requested-left a (r ∷ rs) qs h = let later = requested-left a rs qs in ground arith

requested-right :
    (a : String) (rs qs : List RunRequest) → requested a qs ≡ true → requested a (rs ++ qs) ≡ true
requested-right a [] qs h = h
requested-right a (r ∷ rs) qs h = let later = requested-right a rs qs h in ground arith

-- State `k` is as it was, or its agent was requested.
abbrev Handled : ℕ → AgentTriggerState → List RunRequest × List AgentTriggerState → Type 0
Handled k t out = (get_elem? out.1 k ≡ some t) ⊎ (requested t.agent_id out.0 ≡ true)

module _ (now : ℕ → ℕ) (meanwhile : ℕ → List Message) (k : ℕ) (t : AgentTriggerState)
    (quiet : (i : ℕ) → matched t.topics (meanwhile i) ≡ false) where
  untouched :
      (i : ℕ) (s : AgentTriggerState) (states : List AgentTriggerState)
      → i ≢ k
      → get_elem? states k ≡ some t
      → get_elem? (awaited now meanwhile i s states) k ≡ some t
  untouched i s states ne at =
      awaited-ne now meanwhile i k s t states ne at
      ∙ ap some (mark_states-unmatched (meanwhile i) t (quiet i))

  handled :
      (left i : ℕ) (states : List AgentTriggerState)
      → get_elem? states k ≡ some t
      → Handled k t (dispatch_from now meanwhile left i states)
  unfolding dispatch_from
  handled zero i states at = inl at
  handled (suc left) i states at = elim (Option-cases (get_elem? states i)) [
    | inl e ↦ rw (dispatch_from-end now meanwhile left i states e) (inl at)
    | inr (s, e) ↦ elim (Bool-cases (due (now i) s.debouncer)) [
      | inl d ↦ rw (dispatch_from-due now meanwhile left i states s e d) (elim (ℕ_discrete i k) [
        | yes same ↦ inr (requested_head s t _ (ground arith))
        | no ne ↦
            elim (handled left (suc i) (awaited now meanwhile i s states)
              (untouched i s states ne at)) [
                | inl still ↦ inl still
                | inr sent ↦ inr (ground arith)
              ]
      ])
      | inr d ↦
          rw (dispatch_from-not_due now meanwhile left i states s e d)
            (handled left (suc i) states at)
    ]
  ]

  -- Where state `k` is due when it is visited, its agent is requested.
  served :
      (left i : ℕ) (states : List AgentTriggerState)
      → i ≤ k
      → k < i + left
      → get_elem? states k ≡ some t
      → due (now k) t.debouncer ≡ true
      → requested t.agent_id (dispatch_from now meanwhile left i states).0 ≡ true
  unfolding dispatch_from
  served zero i states le lt at ready = let absurd : ⊥ = omega (arith, le, lt) in elim absurd [ ]
  served (suc left) i states le lt at ready = elim (Option-cases (get_elem? states i)) [
    | inl e ↦ cc (none_behind states i k e le, at)
    | inr (s, e) ↦ elim (ℕ_discrete i k) [
      | yes same ↦
          let here : s ≡ t = ground arith in
          rw (dispatch_from-due now meanwhile left i states s e (ground arith))
            (requested_head s t _ (ground arith))
      | no ne ↦ elim (Bool-cases (due (now i) s.debouncer)) [
        | inl d ↦
            let later =
              served left (suc i) (awaited now meanwhile i s states) (omega arith) (omega arith)
                (untouched i s states ne at) ready in
            rw (dispatch_from-due now meanwhile left i states s e d) (ground arith)
        | inr d ↦
            rw (dispatch_from-not_due now meanwhile left i states s e d)
              (served left (suc i) states (omega arith) (omega arith) at ready)
      ]
    ]
  ]

inside : {A : Type 0} → (xs : List A) (k : ℕ) (x : A) → get_elem? xs k ≡ some x → k < length xs
inside [] k x at = cc
inside (y ∷ xs) zero x at = omega arith
inside (y ∷ xs) (suc k) x at = let later = inside xs k x at in omega (arith, later)

module _ (k : ℕ) (t : AgentTriggerState) where
  handle_messages-at :
      (ms : List Message) (states : List AgentTriggerState)
      → get_elem? states k ≡ some t
      → matched t.topics ms ≡ false
      → get_elem? (handle_messages ms states) k ≡ some t
  handle_messages-at ms states at quiet =
      get_elem?-handle_messages ms states k t at ∙ ap some (mark_states-unmatched ms t quiet)

  -- A turn in which state `k` is due requests its agent.
  turn_serves :
      (r : Turn) (states : List AgentTriggerState)
      → get_elem? states k ≡ some t
      → matched t.topics r.asleep ≡ false
      → ((i : ℕ) → matched t.topics (r.meanwhile i) ≡ false)
      → due (r.now k) t.debouncer ≡ true
      → requested t.agent_id
          (check_due_and_dispatch r.now r.meanwhile (handle_messages r.asleep states)).0
        ≡ true
  unfolding check_due_and_dispatch
  turn_serves r states at sleeps quiet ready =
      let at' = handle_messages-at r.asleep states at sleeps in
      served r.now r.meanwhile k t quiet (length (handle_messages r.asleep states)) 0
        (handle_messages r.asleep states) (omega arith)
        (omega (arith, inside (handle_messages r.asleep states) k t at')) at' ready

  turn_handles :
      (r : Turn) (states : List AgentTriggerState)
      → get_elem? states k ≡ some t
      → matched t.topics r.asleep ≡ false
      → ((i : ℕ) → matched t.topics (r.meanwhile i) ≡ false)
      → Handled k t (check_due_and_dispatch r.now r.meanwhile (handle_messages r.asleep states))
  unfolding check_due_and_dispatch
  turn_handles r states at sleeps quiet =
      handled r.now r.meanwhile k t quiet (length (handle_messages r.asleep states)) 0
        (handle_messages r.asleep states) (handle_messages-at r.asleep states at sleeps)

  turns_serve :
      (before : List Turn) (r : Turn) (rest : List Turn) (states : List AgentTriggerState)
      → get_elem? states k ≡ some t
      → Quiet t.topics (before ++ r ∷ rest)
      → due (r.now k) t.debouncer ≡ true
      → requested t.agent_id (tick_loop (before ++ r ∷ rest) states).0 ≡ true
  unfolding tick_loop
  turns_serve [] r rest states at (sleeps, quiet, later) ready =
      requested-left t.agent_id _ _ (turn_serves r states at sleeps quiet ready)
  turns_serve (b ∷ before) r rest states at (sleeps, quiet, later) ready =
      elim (turn_handles b states at sleeps quiet) [
        | inl still ↦ requested-right t.agent_id _ _ (turns_serve before r rest _ still later ready)
        | inr sent ↦ requested-left t.agent_id _ _ sent
      ]

marked_due :
    (m : Message) (s : AgentTriggerState) (now : ℕ)
    → contains m.topic s.topics ≡ true
    → m.at + s.debouncer.delay ≤ now
    → due now (mark_state m s).debouncer ≡ true
unfolding mark_state mark due
marked_due m s now h late = ground arith

-- An event with a topic of a trigger is followed by no other event with one of its topics, and the
-- tick loop visits the trigger's state when the debounce delay has passed since: then the loop has
-- requested its agent in the first such turn or before, whatever else it dispatches, however long
-- the submits take, and whichever events of other topics come meanwhile.
pub tick_loop_serves :
    (k : ℕ) (states : List AgentTriggerState) (t : AgentTriggerState) (m : Message)
    (before : List Turn) (r : Turn)
    → get_elem? states k ≡ some t
    → contains m.topic t.topics ≡ true
    → Quiet t.topics (before ++ r ∷ [])
    → m.at + t.debouncer.delay ≤ r.now k
    → requested t.agent_id (tick_loop (before ++ r ∷ []) (handle_message m states)).0 ≡ true
unfolding handle_message
tick_loop_serves k states t m before r at hit quiet late =
    let (agent, topics, kept) = mark_state-Keeps m t in
    let at' = get_elem?-map (mark_state m) states k t at in
    let served_by =
      turns_serve k (mark_state m t) before r [] (map (mark_state m) states) at' (rw topics quiet)
        (marked_due m t (r.now k) hit late) in
    ground (arith, agent, served_by)
