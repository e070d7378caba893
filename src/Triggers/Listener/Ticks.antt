-- ===== src/Triggers/Listener/Ticks.antt =====
-- `_tick_loop` of class RedisListener (src/saga_agents/triggers/redis_listener.py), until it is cancelled.
pub mod Served
use native.Mathlib.Decide.{ℕ_discrete}
use saga_agents.Common.{
  contains, ℕ, zero, suc, ◌+◌, ◌<◌, ◌≤◌, String, ◌≡◌, ◌≢◌, refl, ap, ◌∙◌, ◌⊎◌, inl, inr, true,
  false, List, [], ◌∷◌, ◌++◌, map, length, get_elem?, none, some, arith, Bool-cases, Option-cases,
  get_elem?-map,
}
use saga_agents.Triggers.Base.{RunRequest}
use saga_agents.Triggers.Debounce.{due, mark}
use saga_agents.Triggers.Listener.{
  AgentTriggerState, Message, mark_state, handle_message, handle_messages, dispatch_from,
  check_due_and_dispatch,
}
use saga_agents.Triggers.Listener.Dispatch.{
  requested, matched, mark_states, get_elem?-handle_messages, requested_head, dispatch_from-due,
  dispatch_from-not_due, dispatch_from-end, awaited, awaited-ne, mark_state-Keeps,
}

-- One turn of the loop: the messages that are handled during the sleep, the clock when each state is
-- visited, and the messages that are handled while the submit for it is awaited.
pub record Turn : Type 0 where
  pub asleep : List Message
  pub now : ℕ → ℕ
  pub meanwhile : ℕ → List Message

-- The requests that the turns make, and the states behind them.
unfoldable pub tick_loop :
    List Turn → List AgentTriggerState → List RunRequest × List AgentTriggerState
tick_loop [] states = ([], states)
tick_loop (t ∷ ts) states =
    let round = check_due_and_dispatch t.now t.meanwhile (handle_messages t.asleep states) in
    let later = tick_loop ts round.1 in (round.0 ++ later.0, later.1)
