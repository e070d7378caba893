-- ===== src/Triggers/Listener/Tests.antt =====
-- The debouncer and the listener on small inputs, and the theorems at them.
use saga_agents.Common.{arith, contains, ℕ, String, ◌≡◌, ◌↔◌, ◌⊎◌, refl, true, List, [], ◌∷◌, some}
use saga_agents.Triggers.Debounce.{due, mark, reset}
use saga_agents.Triggers.Debounce.History.{marks, resets, after, unserved, IsQuiet, due-after_iff}
use saga_agents.Triggers.Listener.{
  AgentTriggerState, Message, mark_state, handle_message, handle_messages, request_of, fire,
  dispatch_from, check_due_and_dispatch,
}
use saga_agents.Triggers.Listener.Dispatch.{requested, IsPendingAt, check_due_and_dispatch-pending}
use saga_agents.Triggers.Listener.Rounds.{silence}
use saga_agents.Triggers.Listener.Ticks.{Turn, tick_loop}
use saga_agents.Triggers.Listener.Ticks.Served.{Quiet, tick_loop_serves}
use saga_agents.Common.Json.{Json, string, object, end, field}
use saga_agents.Common.Result.{Result, returned, raised}
use saga_agents.Common.{none}
use saga_agents.Triggers.Listener.Messages.{
  Raw, bytes, text, unreadable, topic_field, read_topic, receive, listener_loop,
}
use saga_agents.Triggers.Listener.Messages.Reading.{Reads, listener_loop-Reads}
use saga_agents.Triggers.Listener.Lifecycle.{
  working, has_run, not_begun, stopped, Life, LifeEvent, calls_run, calls_stop, subscribe_ends,
  cancel_ends, unsubscribe_ends, close_ends, tick_dies, built, subscribed, cancelled, unsubscribed,
  pubsub_closed, run_called, stop_called, life_step, live,
}
use saga_agents.Triggers.Listener.Lifecycle.Stopping.{IsIdle, stopped-IsIdle}

listener : Unit {0}
unfolding due mark reset contains mark_state handle_message handle_messages request_of fire
    dispatch_from check_due_and_dispatch
listener = tt

abbrev state : String → String → ℕ → AgentTriggerState
state agent_id topic marked = record {
  agent_id = agent_id;
  topics = topic ∷ [];
  debouncer = record { delay = 60; last_mark = some marked; pending = true };
  last_topic = topic;
}

abbrev states : List AgentTriggerState
states = state "a" "doc.added" 0 ∷ state "b" "doc.moved" 30 ∷ []

-- At time 70 "a" is due and "b" is not.
one_round :
    (check_due_and_dispatch (λ i. 70) silence states).0
    ≡ record { agent_id = "a"; reason = "event:doc.added" } ∷ []
unfolding listener
one_round = refl

-- While the run of "a" is awaited, both of them hear of a new event.
abbrev busy : ℕ → List Message
busy i = record { at = 80; topic = "doc.added" } ∷ record { at = 81; topic = "doc.moved" } ∷ []

check_due_and_dispatch-pending_example :
    IsPendingAt 1 (check_due_and_dispatch (λ i. 70) busy states).1
    ⊎ (requested "b" (check_due_and_dispatch (λ i. 70) busy states).0 ≡ true)
check_due_and_dispatch-pending_example =
    check_due_and_dispatch-pending (λ i. 70) busy 1 states (state "b" "doc.moved" 30) refl refl

-- "b" hears of an event at 40; "a" is dispatched in the first turn and runs while 70 ticks pass.
abbrev other_topic : ℕ → List Message
other_topic i = record { at = 80; topic = "doc.added" } ∷ []

abbrev early : Turn
early = record { asleep = other_topic 0; now = λ i. 70; meanwhile = other_topic }

abbrev late : Turn
late = record { asleep = []; now = λ i. 140; meanwhile = other_topic }

moved_matches : contains "doc.moved" ("doc.moved" ∷ []) ≡ true
unfolding listener
moved_matches = refl

turns-Quiet : Quiet ("doc.moved" ∷ []) (early ∷ late ∷ [])
unfolding listener
turns-Quiet = (refl, λ i. refl, (refl, λ i. refl, tt))

tick_loop_serves_example :
    requested "b"
      (tick_loop
        (early ∷ late ∷ [])
        (handle_message (record { at = 40; topic = "doc.moved" }) states)).0
    ≡ true
tick_loop_serves_example =
    tick_loop_serves 1 states (state "b" "doc.moved" 30) (record { at = 40; topic = "doc.moved" })
      (early ∷ []) late refl moved_matches turns-Quiet (omega arith)

due-after_iff_example :
    (due 100 (after 60 (marks 30 ∷ resets ∷ marks 0 ∷ [])) ≡ true)
    ↔ IsQuiet 100 60 (unserved (marks 30 ∷ resets ∷ marks 0 ∷ []))
due-after_iff_example = due-after_iff 60 100 (marks 30 ∷ resets ∷ marks 0 ∷ [])

abbrev yielded : List (ℕ × Raw String)
yielded =
    (70, record { type = some "subscribe"; data_field = none })
    ∷ (71, record { type = some "message"; data_field = some (bytes "{}") })
    ∷ (72, record { type = some "message"; data_field = some unreadable })
    ∷ (73, record { type = some "message"; data_field = some (text "{}") })
    ∷ []

abbrev parsed : String → Result Json
parsed t = returned (object (field "topic" (string "doc.added") end))

-- Two of the four are messages.
loop_marks :
    listener_loop "" (λ b. returned b) parsed yielded states
    ≡ handle_messages
        (record { at = 71; topic = "doc.added" } ∷ record { at = 73; topic = "doc.added" } ∷ [])
        states
unfolding listener listener_loop receive read_topic topic_field
loop_marks = refl

listener_loop-Reads_example :
    (messages : List Message) × Reads "" (λ b. returned b) parsed yielded messages
    × (listener_loop "" (λ b. returned b) parsed yielded states ≡ handle_messages messages states)
listener_loop-Reads_example = listener_loop-Reads "" (λ b. returned b) parsed yielded states

abbrev subscribed_life : Life
subscribed_life = record {
  pubsub = true;
  listener_task = some working;
  tick_task = some working;
  running = has_run;
  stopping = not_begun;
}

-- The tick loop dies while the listener's task is awaited.
abbrev shutdown : List LifeEvent
shutdown =
    calls_stop
    ∷ tick_dies
    ∷ cancel_ends (returned tt)
    ∷ unsubscribe_ends (raised "no connection")
    ∷ []

life : Unit {0}
unfolding live life_step subscribed cancelled unsubscribed pubsub_closed run_called stop_called
life = tt

shutdown_returns : (live shutdown subscribed_life).stopping ≡ stopped
unfolding life
shutdown_returns = refl

stopped-IsIdle_example : IsIdle (live shutdown subscribed_life)
stopped-IsIdle_example = stopped-IsIdle subscribed_life refl refl refl shutdown shutdown_returns

-- `stop` is called while `run` subscribes: it returns, and both loops run.
overlap :
    live
      (calls_run
        ∷ calls_stop
        ∷ subscribe_ends (returned tt)
        ∷ unsubscribe_ends (returned tt)
        ∷ close_ends (returned tt)
        ∷ [])
      built
    ≡ record {
      pubsub = true;
      listener_task = some working;
      tick_task = some working;
      running = has_run;
      stopping = stopped;
    }
unfolding life
overlap = refl
