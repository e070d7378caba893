-- ===== src/Triggers/Listener/Lifecycle.antt =====
-- `run` and `stop` of class RedisListener (src/saga_agents/triggers/redis_listener.py), as a machine
-- that goes from one `await` to the next. Each is called once; the two may overlap, as they do where
-- the service is shut down while it still subscribes.
pub mod Stopping
use saga_agents.Common.{Bool, true, false, List, [], ◌∷◌, Option, none, some, if◌then◌else◌}
use saga_agents.Common.Result.{Result, returned, raised}

-- A task of asyncio: it runs, or it is done.
pub data TaskState : Type 0 where
  working done : TaskState

-- Where `run` stands.
pub data RunPhase : Type 0 where
  not_called subscribing has_run run_raised : RunPhase

-- Where `stop` stands. `awaits_listener` keeps whether the tick task was there when it began.
pub data StopPhase : Type 0 where
  not_begun : StopPhase
  awaits_listener : Bool → StopPhase
  awaits_tick unsubscribing closing stopped stop_raised : StopPhase

-- Whether `_pubsub` is set, the two tasks, and the two calls.
pub record Life : Type 0 where
  pub pubsub : Bool
  pub listener_task : Option TaskState
  pub tick_task : Option TaskState
  pub running : RunPhase
  pub stopping : StopPhase

-- A call, the end of what is awaited, or the end of a loop by an exception.
pub data LifeEvent : Type 0 where
  calls_run calls_stop : LifeEvent
  subscribe_ends cancel_ends unsubscribe_ends close_ends : Result (Unit {0}) → LifeEvent
  listener_dies tick_dies : LifeEvent

-- `RedisListener(…)`
abbrev pub built : Life
built = record {
  pubsub = false;
  listener_task = none;
  tick_task = none;
  running = not_called;
  stopping = not_begun;
}

abbrev pub is_working : Option TaskState → Bool
is_working (some working) = true
is_working _ = false

abbrev pub is_there : Option TaskState → Bool
is_there none = false
is_there (some t) = true

-- A task that runs is done; another is left as it is.
abbrev pub end_of : Option TaskState → Option TaskState
end_of none = none
end_of (some t) = some done

-- `if self._pubsub is not None`
abbrev pub to_unsubscribe : Life → Life
to_unsubscribe l = record l { stopping = if l.pubsub then unsubscribing else stopped }

-- The turn of the loop for the tick task, if it was there when the loop began.
abbrev pub to_tick : Bool → Life → Life
to_tick was_there l =
    if was_there
    then if is_working l.tick_task then record l { stopping = awaits_tick } else to_unsubscribe l
    else to_unsubscribe l

-- The turn of the loop for the listener task.
abbrev pub to_listener : Life → Life
to_listener l =
    if is_working l.listener_task
    then record l { stopping = awaits_listener (is_there l.tick_task) }
    else to_tick (is_there l.tick_task) l

unfoldable pub subscribed : RunPhase → Result (Unit {0}) → Life → Life
subscribed subscribing (returned u) l = record l {
  listener_task = some working;
  tick_task = some working;
  running = has_run;
}
subscribed subscribing (raised e) l = record l { running = run_raised }
subscribed _ r l = l

-- CancelledError is suppressed; another exception of the task leaves `stop`.
unfoldable pub cancelled : StopPhase → Result (Unit {0}) → Life → Life
cancelled (awaits_listener was_there) (returned u) l =
    to_tick was_there (record l { listener_task = end_of l.listener_task })
cancelled (awaits_listener was_there) (raised e) l = record l {
  listener_task = end_of l.listener_task;
  stopping = stop_raised;
}
cancelled awaits_tick (returned u) l = to_unsubscribe (record l { tick_task = end_of l.tick_task })
cancelled awaits_tick (raised e) l = record l {
  tick_task = end_of l.tick_task;
  stopping = stop_raised;
}
cancelled _ r l = l

-- An exception of `unsubscribe` or `aclose` is logged.
unfoldable pub unsubscribed : StopPhase → Result (Unit {0}) → Life → Life
unsubscribed unsubscribing (returned u) l = record l { stopping = closing }
unsubscribed unsubscribing (raised e) l = record l { stopping = stopped }
unsubscribed _ r l = l

unfoldable pub pubsub_closed : StopPhase → Life → Life
pubsub_closed closing l = record l { stopping = stopped }
pubsub_closed _ l = l

unfoldable pub run_called : RunPhase → Life → Life
run_called not_called l = record l { pubsub = true; running = subscribing }
run_called _ l = l

unfoldable pub stop_called : StopPhase → Life → Life
stop_called not_begun l = to_listener l
stop_called _ l = l

unfoldable pub life_step : LifeEvent → Life → Life
unfolding subscribed cancelled unsubscribed pubsub_closed run_called stop_called
life_step calls_run l = run_called l.running l
life_step calls_stop l = stop_called l.stopping l
life_step (subscribe_ends r) l = subscribed l.running r l
life_step (cancel_ends r) l = cancelled l.stopping r l
life_step (unsubscribe_ends r) l = unsubscribed l.stopping r l
life_step (close_ends r) l = pubsub_closed l.stopping l
life_step listener_dies l = record l { listener_task = end_of l.listener_task }
life_step tick_dies l = record l { tick_task = end_of l.tick_task }

unfoldable pub live : List LifeEvent → Life → Life
live [] l = l
live (e ∷ es) l = live es (life_step e l)
