-- ===== src/Triggers/Listener/Messages/Reading.antt =====
-- Which of what is yielded marks agents, and that the rest changes nothing.
use saga_agents.Common.{
  ℕ, String, eq_iff, ◌≡◌, refl, ap, ◌∙◌, ◌⊎◌, inl, inr, true, Bool-cases, List, [], ◌∷◌, Option,
  none, some,
}
use saga_agents.Common.Json.{Json, string, object, Fields}
use saga_agents.Common.Result.{Result, returned, raised, bind-eq-returned}
use saga_agents.Triggers.Listener.{AgentTriggerState, Message, handle_message, handle_messages}
use saga_agents.Triggers.Listener.Messages.{
  Raw, is_message, topic_field, topic_of, data_text, read_topic, after_read, receive, listener_loop,
}

module _ {Bytes : Type 0} (empty : Bytes) (decode : Bytes → Result String)
    (loads : String → Result Json) where
  -- It is of type "message", and its data is the JSON text of a mapping with this topic.
  pub record IsMessage (raw : Raw Bytes) (topic : String) : Type 0 where
    pub type : raw.type ≡ some "message"
    pub json : String
    pub readable : data_text empty decode loads raw.data_field ≡ returned json
    pub fields : Fields
    pub mapping : loads json ≡ returned (object fields)
    pub found : topic_field fields ≡ string topic

  -- The messages among what was yielded, in their order.
  pub data Reads : List (ℕ × Raw Bytes) → List Message → Type 0 where
    ends : Reads [] []
    reads :
        (at : ℕ) (raw : Raw Bytes) (topic : String) (raws : List (ℕ × Raw Bytes))
        (messages : List Message)
        → IsMessage raw topic
        → Reads raws messages
        → Reads ((at, raw) ∷ raws) (record { at = at; topic = topic } ∷ messages)
    skips :
        (at : ℕ) (raw : Raw Bytes) (raws : List (ℕ × Raw Bytes)) (messages : List Message)
        → ((topic : String) → ¬ IsMessage raw topic)
        → Reads raws messages
        → Reads ((at, raw) ∷ raws) messages

  topic_of-object :
      (msg : Json) (topic : String)
      → topic_of msg ≡ returned (string topic)
      → (fields : Fields) × (msg ≡ object fields) × (topic_field fields ≡ string topic)
  topic_of-object (object fields) topic h = (fields, refl, cc)
  topic_of-object _ topic h = cc

  is_message-some : (o : Option String) → is_message o ≡ true → o ≡ some "message"
  is_message-some none h = cc
  is_message-some (some t) h = ap (λ x. some x) ((eq_iff t "message").0 h)

  read_topic-IsMessage :
      (raw : Raw Bytes) (topic : String)
      → is_message raw.type ≡ true
      → read_topic empty decode loads raw ≡ returned (string topic)
      → IsMessage raw topic
  unfolding read_topic
  read_topic-IsMessage raw topic is h =
      let (json, readable, h1) =
        bind-eq-returned (data_text empty decode loads raw.data_field) _ h in
      let (msg, parsed, h2) = bind-eq-returned (loads json) _ h1 in
      let (fields, mapping, found) = topic_of-object msg topic h2 in
      record {
        type = is_message-some raw.type is;
        json = json;
        readable = readable;
        fields = fields;
        mapping = parsed ∙ ap (λ m. returned m) mapping;
        found = found;
      }

  IsMessage-read_topic :
      (raw : Raw Bytes) (topic : String)
      → IsMessage raw topic
      → read_topic empty decode loads raw ≡ returned (string topic)
  unfolding read_topic
  IsMessage-read_topic raw topic m = rw (m.readable, m.mapping) (ap (λ x. returned x) m.found)

  abbrev Turn : ℕ → Raw Bytes → List AgentTriggerState → List AgentTriggerState → Type 0
  Turn at raw states after =
      ((topic : String) × IsMessage raw topic
        × (after ≡ handle_message (record { at = at; topic = topic }) states))
      ⊎ (((topic : String) → ¬ IsMessage raw topic) × (after ≡ states))

  read-cases :
      (at : ℕ) (raw : Raw Bytes) (states : List AgentTriggerState) (r : Result Json)
      → is_message raw.type ≡ true
      → read_topic empty decode loads raw ≡ r
      → Turn at raw states (after_read empty decode loads at r states)
  read-cases at raw states (returned (string topic)) is h =
      inl (topic, read_topic-IsMessage raw topic is h, refl)
  read-cases at raw states (returned _) is h =
      inr (λ topic m. let read = IsMessage-read_topic raw topic m in cc, refl)
  read-cases at raw states (raised e) is h =
      inr (λ topic m. let read = IsMessage-read_topic raw topic m in cc, refl)

  receive-cases :
      (at : ℕ) (raw : Raw Bytes) (states : List AgentTriggerState)
      → Turn at raw states (receive empty decode loads (at, raw) states)
  unfolding receive
  receive-cases at raw states = elim (Bool-cases (is_message raw.type)) [
    | inl is ↦ simp is (read-cases at raw states (read_topic empty decode loads raw) is refl)
    | inr is_not ↦
        simp is_not
          (inr (λ topic m. let is : is_message raw.type ≡ true = ap is_message m.type in cc, refl))
  ]

  -- The loop takes everything that the iterator yields, and does what handling its messages does, in
  -- their order: whatever is of another type, does not decode, is no JSON, no mapping, or has no text
  -- as its topic changes nothing. A mapping without a topic is a message of the topic "".
  pub listener_loop-Reads :
      (raws : List (ℕ × Raw Bytes)) (states : List AgentTriggerState)
      → (messages : List Message) × Reads raws messages
        × (listener_loop empty decode loads raws states ≡ handle_messages messages states)
  unfolding listener_loop handle_messages
  listener_loop-Reads [] states = ([], ends, refl)
  listener_loop-Reads ((at, raw) ∷ raws) states =
      let (messages, read, same) =
        listener_loop-Reads raws (receive empty decode loads (at, raw) states) in
      elim (receive-cases at raw states) [
        | inl (topic, is, marked) ↦
            let m : Message = record { at = at; topic = topic } in
            (
              m ∷ messages,
              reads at raw topic raws messages is read,
              same ∙ ap (handle_messages messages) marked,
            )
        | inr (is_not, unchanged) ↦ (
          messages,
          skips at raw raws messages is_not read,
          same ∙ ap (handle_messages messages) unchanged,
        )
      ]
