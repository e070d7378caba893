-- ===== src/Triggers/Listener/Dispatch.antt =====
-- What one round of the tick loop dispatches, and what it leaves pending.
use native.Mathlib.Decide.{ℕ_discrete}
use saga_agents.Common.{
  contains, ℕ, zero, suc, ◌<◌, String, ◌≡◌, ◌≢◌, refl, ◌∙◌, ◌⊎◌, inl, inr, ◌==◌, eq_iff, ◌||◌, Bool,
  true, false, List, [], ◌∷◌, map, length, get_elem?, set, none, some, arith, Bool-cases,
  Option-cases, get_elem?-set_self, get_elem?-set_ne, get_elem?-map,
}
use saga_agents.Triggers.Base.{RunRequest}
use saga_agents.Triggers.Debounce.{due, mark}
use saga_agents.Triggers.Listener.{
  AgentTriggerState, Message, mark_state, handle_message, handle_messages, request_of, fire,
  dispatch_from, check_due_and_dispatch,
}

-- Some request of the list is for this agent.
abbrev pub requested : String → List RunRequest → Bool
requested agent_id [] = false
requested agent_id (r ∷ rs) = r.agent_id == agent_id || requested agent_id rs

unfoldable pub mark_states : List Message → AgentTriggerState → AgentTriggerState
mark_states [] s = s
mark_states (m ∷ ms) s = mark_states ms (mark_state m s)

pub get_elem?-handle_messages :
    (ms : List Message) (states : List AgentTriggerState) (k : ℕ) (s : AgentTriggerState)
    → get_elem? states k ≡ some s
    → get_elem? (handle_messages ms states) k ≡ some (mark_states ms s)
unfolding handle_messages handle_message mark_states
get_elem?-handle_messages [] states k s h = h
get_elem?-handle_messages (m ∷ ms) states k s h =
    get_elem?-handle_messages ms (map (mark_state m) states) k (mark_state m s)
      (get_elem?-map (mark_state m) states k s h)

-- What no message takes away: the agent, and that an event is pending.
abbrev Keeps : AgentTriggerState → AgentTriggerState → Type 0
Keeps s t =
    (t.agent_id ≡ s.agent_id)
    × (t.topics ≡ s.topics)
    × (s.debouncer.pending ≡ true → t.debouncer.pending ≡ true)

pub mark_state-Keeps : (m : Message) (s : AgentTriggerState) → Keeps s (mark_state m s)
unfolding mark_state mark
mark_state-Keeps m s = ground arith

mark_states-Keeps : (ms : List Message) (s : AgentTriggerState) → Keeps s (mark_states ms s)
unfolding mark_states
mark_states-Keeps [] s = (refl, refl, λ h. h)
mark_states-Keeps (m ∷ ms) s =
    let (a, b, c) = mark_state-Keeps m s in
    let (a', b', c') = mark_states-Keeps ms (mark_state m s) in (cc, cc, λ h. c' (c h))

-- Some message of the list has one of these topics.
abbrev pub matched : List String → List Message → Bool
matched topics [] = false
matched topics (m ∷ ms) = contains m.topic topics || matched topics ms

mark_state-matched :
    (m : Message) (s : AgentTriggerState)
    → contains m.topic s.topics ≡ true
    → (mark_state m s).debouncer.pending ≡ true
unfolding mark_state mark
mark_state-matched m s h = ground arith

mark_states-matched :
    (ms : List Message) (s : AgentTriggerState)
    → matched s.topics ms ≡ true
    → (mark_states ms s).debouncer.pending ≡ true
unfolding mark_states
mark_states-matched [] s h = cc
mark_states-matched (m ∷ ms) s h = elim (Bool-cases (contains m.topic s.topics)) [
  | inl here ↦ (mark_states-Keeps ms (mark_state m s)).2 (mark_state-matched m s here)
  | inr not_here ↦
      let later : matched s.topics ms ≡ true = rw not_here at h in
      mark_states-matched ms (mark_state m s) (rw ((mark_state-Keeps m s).1) later)
]

-- State `k` is pending.
abbrev pub IsPendingAt : ℕ → List AgentTriggerState → Type 0
IsPendingAt k states =
    (s : AgentTriggerState) × (get_elem? states k ≡ some s) × (s.debouncer.pending ≡ true)

pub requested_head :
    (s t : AgentTriggerState) (rs : List RunRequest)
    → s.agent_id ≡ t.agent_id
    → requested t.agent_id (request_of s ∷ rs) ≡ true
unfolding request_of
requested_head s t rs e = ground (arith, eq_iff s.agent_id t.agent_id)

module _ (now : ℕ → ℕ) (meanwhile : ℕ → List Message) where
  -- The states after state `i` was fired and its submit awaited.
  abbrev pub awaited : ℕ → AgentTriggerState → List AgentTriggerState → List AgentTriggerState
  awaited i s states = handle_messages (meanwhile i) (set states i (fire s))

  pub dispatch_from-due :
      (left i : ℕ) (states : List AgentTriggerState) (s : AgentTriggerState)
      → get_elem? states i ≡ some s
      → due (now i) s.debouncer ≡ true
      → dispatch_from now meanwhile (suc left) i states ≡ (
        request_of s ∷ (dispatch_from now meanwhile left (suc i) (awaited i s states)).0,
        (dispatch_from now meanwhile left (suc i) (awaited i s states)).1,
      )
  unfolding dispatch_from
  dispatch_from-due left i states s h d = rw (h, dispatch_from) (rw d)

  pub dispatch_from-not_due :
      (left i : ℕ) (states : List AgentTriggerState) (s : AgentTriggerState)
      → get_elem? states i ≡ some s
      → due (now i) s.debouncer ≡ false
      → dispatch_from now meanwhile (suc left) i states
        ≡ dispatch_from now meanwhile left (suc i) states
  unfolding dispatch_from
  dispatch_from-not_due left i states s h d = rw (h, dispatch_from) (rw d)

  pub dispatch_from-end :
      (left i : ℕ) (states : List AgentTriggerState)
      → get_elem? states i ≡ none
      → dispatch_from now meanwhile (suc left) i states ≡ ([], states)
  unfolding dispatch_from
  dispatch_from-end left i states h = rw (h, dispatch_from)

  pub awaited-ne :
      (i k : ℕ) (s t : AgentTriggerState) (states : List AgentTriggerState)
      → i ≢ k
      → get_elem? states k ≡ some t
      → get_elem? (awaited i s states) k ≡ some (mark_states (meanwhile i) t)
  awaited-ne i k s t states ne h =
      get_elem?-handle_messages (meanwhile i) (set states i (fire s)) k t
        (get_elem?-set_ne states i k (fire s) ne ∙ h)

  awaited_self :
      (i : ℕ) (s : AgentTriggerState) (states : List AgentTriggerState)
      → get_elem? states i ≡ some s
      → get_elem? (awaited i s states) i ≡ some (mark_states (meanwhile i) (fire s))
  awaited_self i s states h =
      get_elem?-handle_messages (meanwhile i) (set states i (fire s)) i (fire s)
        (get_elem?-set_self states i s (fire s) h)

  -- A state that the loop has passed stays pending.
  passed :
      (left i k : ℕ) (states : List AgentTriggerState)
      → k < i
      → IsPendingAt k states
      → IsPendingAt k (dispatch_from now meanwhile left i states).1
  unfolding dispatch_from
  passed zero i k states lt p = p
  passed (suc left) i k states lt (t, at, p) = elim (Option-cases (get_elem? states i)) [
    | inl e ↦ rw (dispatch_from-end left i states e) (t, at, p)
    | inr (s, e) ↦ elim (Bool-cases (due (now i) s.debouncer)) [
      | inl d ↦ rw (dispatch_from-due left i states s e d) (
          passed left (suc i) k (awaited i s states) (omega arith) (
            mark_states (meanwhile i) t,
            awaited-ne i k s t states (omega arith) at,
            (mark_states-Keeps (meanwhile i) t).2 p,
          ))
      | inr d ↦
          rw (dispatch_from-not_due left i states s e d)
            (passed left (suc i) k states (omega arith) (t, at, p))
    ]
  ]

  -- State `k` is still pending, or its agent has been requested.
  abbrev Served : ℕ → String → List RunRequest × List AgentTriggerState → Type 0
  Served k agent_id out = IsPendingAt k out.1 ⊎ (requested agent_id out.0 ≡ true)

  serve :
      (left i k : ℕ) (states : List AgentTriggerState) (t : AgentTriggerState)
      → get_elem? states k ≡ some t
      → t.debouncer.pending ≡ true
      → Served k t.agent_id (dispatch_from now meanwhile left i states)
  unfolding dispatch_from
  serve zero i k states t at p = inl (t, at, p)
  serve (suc left) i k states t at p = elim (Option-cases (get_elem? states i)) [
    | inl e ↦ rw (dispatch_from-end left i states e) (inl (t, at, p))
    | inr (s, e) ↦ elim (Bool-cases (due (now i) s.debouncer)) [
      | inl d ↦ rw (dispatch_from-due left i states s e d) (elim (ℕ_discrete i k) [
        | yes same ↦ inr (requested_head s t _ (ground arith))
        | no ne ↦
            let kept = mark_states-Keeps (meanwhile i) t in
            elim (serve left (suc i) k (awaited i s states) (mark_states (meanwhile i) t)
              (awaited-ne i k s t states ne at) (kept.2 p)) [
                | inl still ↦ inl still
                | inr sent ↦ inr (ground (arith, kept.0))
              ]
      ])
      | inr d ↦ rw (dispatch_from-not_due left i states s e d) (serve left (suc i) k states t at p)
    ]
  ]

  -- A pending event is not lost: after a round of the tick loop, whatever the clock reads and
  -- whichever messages arrive meanwhile, its state is still pending or its agent was requested.
  pub check_due_and_dispatch-pending :
      (k : ℕ) (states : List AgentTriggerState) (t : AgentTriggerState)
      → get_elem? states k ≡ some t
      → t.debouncer.pending ≡ true
      → IsPendingAt k (check_due_and_dispatch now meanwhile states).1
        ⊎ (requested t.agent_id (check_due_and_dispatch now meanwhile states).0 ≡ true)
  unfolding check_due_and_dispatch
  check_due_and_dispatch-pending k states t at p = serve (length states) 0 k states t at p

  -- While the submit for a due state is awaited, a message with one of its topics arms it again.
  rearm :
      (left i : ℕ) (states : List AgentTriggerState) (s : AgentTriggerState)
      → get_elem? states i ≡ some s
      → due (now i) s.debouncer ≡ true
      → matched s.topics (meanwhile i) ≡ true
      → IsPendingAt i (dispatch_from now meanwhile (suc left) i states).1
  unfolding fire
  rearm left i states s at d m = rw (dispatch_from-due left i states s at d) (
      passed left (suc i) i (awaited i s states) (omega arith) (
        mark_states (meanwhile i) (fire s),
        awaited_self i s states at,
        mark_states-matched (meanwhile i) (fire s) m,
      ))
