-- ===== src/Triggers/Listener/Messages.antt =====
-- `_listener_loop` of src/saga_agents/triggers/redis_listener.py: what becomes of what the pub/sub
-- iterator yields. `decode` is bytes.decode, and `loads` is json.loads.
pub mod Reading
use saga_agents.Common.{
  ℕ, String, ◌==◌, Bool, true, false, List, [], ◌∷◌, Option, none, some, if◌then◌else◌,
}
use saga_agents.Common.Json.{Json, null, bool, number, string, array, object, Fields, end, field}
use saga_agents.Common.Result.{Result, returned, raised, ◌>>=◌}
use saga_agents.Triggers.Listener.{AgentTriggerState, Message, handle_message}

-- The value under `data`: bytes, a text, or what json.loads does not take.
pub data Data (Bytes : Type 0) : Type 0 where
  bytes : Bytes → Data Bytes
  text : String → Data Bytes
  unreadable : Data Bytes

-- The values under `type` and `data` of what the iterator yields.
pub record Raw (Bytes : Type 0) : Type 0 where
  pub type : Option String
  pub data_field : Option (Data Bytes)

abbrev pub is_message : Option String → Bool
is_message none = false
is_message (some type) = type == "message"

-- msg.get("topic", "")
unfoldable pub topic_field : Fields → Json
topic_field end = string ""
topic_field (field key value rest) =
    let later = topic_field rest in if key == "topic" then value else later

-- A message that is not a mapping has no `get`.
abbrev pub topic_of : Json → Result Json
topic_of (object fields) = returned (topic_field fields)
topic_of msg = raised "object has no attribute 'get'"

-- `_handle_message`. A topic that is no text stands in no set of texts; where it cannot be hashed,
-- the exception is raised at the first state, before any is marked.
abbrev pub handle_topic : ℕ → Json → List AgentTriggerState → List AgentTriggerState
handle_topic at (string topic) states = handle_message (record { at = at; topic = topic }) states
handle_topic at topic states = states

module _ {Bytes : Type 0} (empty : Bytes) (decode : Bytes → Result String)
    (loads : String → Result Json) where
  abbrev pub data_text : Option (Data Bytes) → Result String
  data_text none = decode empty
  data_text (some (bytes b)) = decode b
  data_text (some (text t)) = returned t
  data_text (some unreadable) = raised "the JSON object must be str, bytes or bytearray"

  -- The `try` block up to the topic.
  unfoldable pub read_topic : Raw Bytes → Result Json
  unfolding topic_field
  read_topic raw = do t ← data_text raw.data_field; msg ← loads t; topic_of msg

  abbrev pub after_read : ℕ → Result Json → List AgentTriggerState → List AgentTriggerState
  after_read at (raised e) states = states
  after_read at (returned topic) states = handle_topic at topic states

  -- One turn of the loop: the clock when it is handled, and what was yielded.
  unfoldable pub receive : ℕ × Raw Bytes → List AgentTriggerState → List AgentTriggerState
  unfolding read_topic
  receive (at, raw) states =
      if is_message raw.type then after_read at (read_topic raw) states else states

  unfoldable pub listener_loop :
      List (ℕ × Raw Bytes) → List AgentTriggerState → List AgentTriggerState
  unfolding receive
  listener_loop [] states = states
  listener_loop (raw ∷ raws) states = listener_loop raws (receive raw states)
