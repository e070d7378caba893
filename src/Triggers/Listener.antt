-- ===== src/Triggers/Listener.antt =====
-- class RedisListener of src/saga_agents/triggers/redis_listener.py.
-- Times are clock ticks, `second` of them to a second. Decoding a message (`json.loads`) is the
-- caller's: a message is its topic.
pub mod Dispatch
pub mod Rounds
pub mod Ticks
pub mod States
pub mod Messages
pub mod Lifecycle
mod Tests
use saga_agents.Common.{
  ℕ, zero, suc, ◌*◌, max, String, ◌==◌, ◌||◌, Bool, true, false, List, [], ◌∷◌, ◌++◌, map, length,
  get_elem?, set, contains, Option, none, some, if◌then◌else◌,
}
use saga_agents.Common.Dict.{Dict}
use saga_agents.Common.Int.{ℤ, pos, negsuc}
use saga_agents.Config.Models.{AgentDefinition, Trigger, EventTrigger, event, schedule, external}
use saga_agents.Triggers.Base.{RunRequest}
use saga_agents.Triggers.Debounce.{Debouncer, mark, due, reset}
use saga_agents.Triggers.Debounce
use Prim.Native.String

pub record AgentTriggerState : Type 0 where
  pub agent_id : String
  pub topics : List String
  pub debouncer : Debouncer
  pub last_topic : String

module _ (second : ℕ) where
  -- max(trigger.debounce_minutes * 60.0, 1.0)
  unfoldable pub delay_of : ℤ → ℕ
  delay_of (pos minutes) = max (minutes * 60 * second) second
  delay_of (negsuc n) = second

  state_of : String → EventTrigger → AgentTriggerState
  unfolding delay_of
  state_of agent_id trigger = record {
    agent_id = agent_id;
    topics = trigger.topics;
    debouncer = Debounce.init (delay_of trigger.debounce_minutes);
    last_topic = "debounced";
  }

  -- the inner loop of `__init__`
  states_of_triggers : String → List Trigger → List AgentTriggerState
  unfolding state_of
  states_of_triggers agent_id [] = []
  states_of_triggers agent_id (event trigger ∷ rest) =
      state_of agent_id trigger ∷ states_of_triggers agent_id rest
  states_of_triggers agent_id (_ ∷ rest) = states_of_triggers agent_id rest

  -- RedisListener(redis, channel, definitions, executor)._states
  unfoldable pub init : Dict AgentDefinition → List AgentTriggerState
  unfolding states_of_triggers
  init [] = []
  init ((agent_id, defn) ∷ rest) =
      if defn.enabled then states_of_triggers agent_id defn.triggers ++ init rest else init rest

-- A message from the channel: the clock when it is handled, and its topic.
pub record Message : Type 0 where
  pub at : ℕ
  pub topic : String

unfoldable pub mark_state : Message → AgentTriggerState → AgentTriggerState
mark_state m s =
    if contains m.topic s.topics
    then record s { last_topic = m.topic; debouncer = mark m.at s.debouncer }
    else s

-- `m.at` is one reading of the clock for all the states; the source reads it at each mark.
unfoldable pub handle_message : Message → List AgentTriggerState → List AgentTriggerState
unfolding mark_state
handle_message m states = map (mark_state m) states

-- The messages that the listener task handles while the tick task waits.
unfoldable pub handle_messages : List Message → List AgentTriggerState → List AgentTriggerState
handle_messages [] states = states
handle_messages (m ∷ ms) states = handle_messages ms (handle_message m states)

unfoldable pub request_of : AgentTriggerState → RunRequest
request_of s = record { agent_id = s.agent_id; reason = String.◌++◌ "event:" s.last_topic }

unfoldable pub fire : AgentTriggerState → AgentTriggerState
fire s = record s { debouncer = reset s.debouncer }

-- `_check_due_and_dispatch`: the loop from position `i` on, with `left` states to visit. `now i` is
-- the clock when state `i` is visited, and `meanwhile i` are the messages that the listener task
-- handles while the submit for state `i` is awaited. An exception of `submit` is logged and
-- dropped, so the loop does not depend on how a submit ends.
module _ (now : ℕ → ℕ) (meanwhile : ℕ → List Message) where
  unfoldable pub dispatch_from :
      ℕ → ℕ → List AgentTriggerState → List RunRequest × List AgentTriggerState
  dispatch_from zero i states = ([], states)
  dispatch_from (suc left) i states = elim (get_elem? states i) [
    | none ↦ ([], states)
    | some s ↦
        let later =
          dispatch_from left (suc i) (handle_messages (meanwhile i) (set states i (fire s))) in
        let unchanged = dispatch_from left (suc i) states in
        if due (now i) s.debouncer then (request_of s ∷ later.0, later.1) else unchanged
  ]

  unfoldable pub check_due_and_dispatch :
      List AgentTriggerState → List RunRequest × List AgentTriggerState
  check_due_and_dispatch states = dispatch_from (length states) 0 states
