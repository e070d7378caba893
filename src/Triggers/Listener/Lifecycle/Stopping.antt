-- ===== src/Triggers/Listener/Lifecycle/Stopping.antt =====
-- What `stop` leaves behind.
use saga_agents.Common.{
  ◌≡◌, refl, ◌∙◌, Bool, true, false, List, [], ◌∷◌, Option, none, some, if◌then◌else◌,
}
use saga_agents.Common.Result.{Result, returned, raised}
use saga_agents.Triggers.Listener.Lifecycle.{
  TaskState, RunPhase, not_called, subscribing, has_run, StopPhase, not_begun, awaits_listener,
  awaits_tick, unsubscribing, closing, stopped, stop_raised, Life, LifeEvent, calls_run, calls_stop,
  subscribe_ends, cancel_ends, unsubscribe_ends, close_ends, listener_dies, tick_dies, is_working,
  is_there, end_of, to_unsubscribe, to_tick, to_listener, subscribed, cancelled, unsubscribed,
  pubsub_closed, run_called, stop_called, life_step, live,
}

-- Neither loop runs any more.
abbrev pub IsIdle : Life → Type 0
IsIdle l = (is_working l.listener_task ≡ false) × (is_working l.tick_task ≡ false)

-- The tasks that `stop` has dealt with are done, by where it stands.
abbrev Settled : StopPhase → Life → Type 0
Settled not_begun l = Unit
Settled (awaits_listener was_there) l = was_there ≡ true
Settled awaits_tick l = is_working l.listener_task ≡ false
Settled stop_raised l = Unit
Settled _ l = IsIdle l

-- `run` has returned, so both tasks are there, and `stop` has settled what it passed.
pub record IsOrderly (l : Life) : Type 0 where
  pub ran : l.running ≡ has_run
  pub tick_there : is_there l.tick_task ≡ true
  pub settled : Settled l.stopping l

end_of_idle : (o : Option TaskState) → is_working (end_of o) ≡ false
end_of_idle none = refl
end_of_idle (some t) = refl

end_of-is_there : (o : Option TaskState) → is_there (end_of o) ≡ is_there o
end_of-is_there none = refl
end_of-is_there (some t) = refl

if-IsOrderly :
    (b : Bool) (x y : Life)
    → (b ≡ true → IsOrderly x)
    → (b ≡ false → IsOrderly y)
    → IsOrderly (if b then x else y)
if-IsOrderly true x y h k = h refl
if-IsOrderly false x y h k = k refl

Settled-if : (b : Bool) (l : Life) → IsIdle l → Settled (if b then unsubscribing else stopped) l
Settled-if true l idle = idle
Settled-if false l idle = idle

-- A loop that ends leaves what was settled.
dies-Settled :
    (p : StopPhase) (l k : Life)
    → (is_working l.listener_task ≡ false → is_working k.listener_task ≡ false)
    → (is_working l.tick_task ≡ false → is_working k.tick_task ≡ false)
    → Settled p l
    → Settled p k
dies-Settled not_begun l k f g s = tt
dies-Settled (awaits_listener was_there) l k f g s = s
dies-Settled awaits_tick l k f g s = f s
dies-Settled unsubscribing l k f g s = (f s.0, g s.1)
dies-Settled closing l k f g s = (f s.0, g s.1)
dies-Settled stopped l k f g s = (f s.0, g s.1)
dies-Settled stop_raised l k f g s = tt

module _ (l : Life) (ran : l.running ≡ has_run) (there : is_there l.tick_task ≡ true) where
  to_unsubscribe-IsOrderly : IsIdle l → IsOrderly (to_unsubscribe l)
  to_unsubscribe-IsOrderly idle = record {
    ran = ran;
    tick_there = there;
    settled = Settled-if l.pubsub _ idle;
  }

  to_tick-IsOrderly : is_working l.listener_task ≡ false → IsOrderly (to_tick true l)
  to_tick-IsOrderly idle =
      if-IsOrderly (is_working l.tick_task) (record l { stopping = awaits_tick }) (to_unsubscribe l)
        (λ works. record { ran = ran; tick_there = there; settled = idle })
        (λ done_too. to_unsubscribe-IsOrderly (idle, done_too))

  to_listener-IsOrderly : IsOrderly (to_listener l)
  to_listener-IsOrderly =
      if-IsOrderly (is_working l.listener_task)
        (record l { stopping = awaits_listener (is_there l.tick_task) })
        (to_tick (is_there l.tick_task) l)
        (λ works. record { ran = ran; tick_there = there; settled = there })
        (λ idle. rw there (to_tick-IsOrderly idle))

  stop_called-IsOrderly : (p : StopPhase) → IsOrderly l → IsOrderly (stop_called p l)
  unfolding stop_called
  stop_called-IsOrderly not_begun o = to_listener-IsOrderly
  stop_called-IsOrderly _ o = o

  unsubscribed-IsOrderly :
      (p : StopPhase) (r : Result (Unit {0}))
      → Settled p l
      → IsOrderly l
      → IsOrderly (unsubscribed p r l)
  unfolding unsubscribed
  unsubscribed-IsOrderly unsubscribing (returned u) s o = record {
    ran = ran;
    tick_there = there;
    settled = s;
  }
  unsubscribed-IsOrderly unsubscribing (raised e) s o = record {
    ran = ran;
    tick_there = there;
    settled = s;
  }
  unsubscribed-IsOrderly _ r s o = o

  pubsub_closed-IsOrderly :
      (p : StopPhase) → Settled p l → IsOrderly l → IsOrderly (pubsub_closed p l)
  unfolding pubsub_closed
  pubsub_closed-IsOrderly closing s o = record { ran = ran; tick_there = there; settled = s }
  pubsub_closed-IsOrderly _ s o = o

  run_called-eq : (p : RunPhase) → p ≡ has_run → run_called p l ≡ l
  unfolding run_called
  run_called-eq not_called e = cc
  run_called-eq _ e = refl

  subscribed-eq : (p : RunPhase) (r : Result (Unit {0})) → p ≡ has_run → subscribed p r l ≡ l
  unfolding subscribed
  subscribed-eq subscribing r e = cc
  subscribed-eq _ r e = refl

cancelled-IsOrderly :
    (l : Life) (ran : l.running ≡ has_run) (there : is_there l.tick_task ≡ true) (p : StopPhase)
    (r : Result (Unit {0}))
    → Settled p l
    → IsOrderly l
    → IsOrderly (cancelled p r l)
unfolding cancelled
cancelled-IsOrderly l ran there (awaits_listener was_there) (returned u) s o = rw s (
    to_tick-IsOrderly (record l { listener_task = end_of l.listener_task }) ran there
      (end_of_idle l.listener_task))
cancelled-IsOrderly l ran there (awaits_listener was_there) (raised e) s o = record {
  ran = ran;
  tick_there = there;
  settled = tt;
}
cancelled-IsOrderly l ran there awaits_tick (returned u) s o =
    to_unsubscribe-IsOrderly (record l { tick_task = end_of l.tick_task }) ran
      (end_of-is_there l.tick_task ∙ there) (s, end_of_idle l.tick_task)
cancelled-IsOrderly l ran there awaits_tick (raised e) s o = record {
  ran = ran;
  tick_there = end_of-is_there l.tick_task ∙ there;
  settled = tt;
}
cancelled-IsOrderly l ran there _ r s o = o

step-IsOrderly : (e : LifeEvent) (l : Life) → IsOrderly l → IsOrderly (life_step e l)
unfolding life_step
step-IsOrderly calls_run l o = rw (run_called-eq l o.ran o.tick_there l.running o.ran) o
step-IsOrderly calls_stop l o = stop_called-IsOrderly l o.ran o.tick_there l.stopping o
step-IsOrderly (subscribe_ends r) l o = rw (subscribed-eq l o.ran o.tick_there l.running r o.ran) o
step-IsOrderly (cancel_ends r) l o =
    cancelled-IsOrderly l o.ran o.tick_there l.stopping r o.settled o
step-IsOrderly (unsubscribe_ends r) l o =
    unsubscribed-IsOrderly l o.ran o.tick_there l.stopping r o.settled o
step-IsOrderly (close_ends r) l o =
    pubsub_closed-IsOrderly l o.ran o.tick_there l.stopping o.settled o
step-IsOrderly listener_dies l o = record {
  ran = o.ran;
  tick_there = o.tick_there;
  settled = dies-Settled l.stopping l _ (λ h. end_of_idle l.listener_task) (λ h. h) o.settled;
}
step-IsOrderly tick_dies l o = record {
  ran = o.ran;
  tick_there = end_of-is_there l.tick_task ∙ o.tick_there;
  settled = dies-Settled l.stopping l _ (λ h. h) (λ h. end_of_idle l.tick_task) o.settled;
}

live-IsOrderly : (es : List LifeEvent) (l : Life) → IsOrderly l → IsOrderly (live es l)
unfolding live
live-IsOrderly [] l o = o
live-IsOrderly (e ∷ es) l o = live-IsOrderly es (life_step e l) (step-IsOrderly e l o)

IsOrderly-IsIdle : (l : Life) (p : StopPhase) → p ≡ stopped → Settled p l → IsIdle l
IsOrderly-IsIdle l stopped is s = s
IsOrderly-IsIdle l _ is s = cc

begins : (p : StopPhase) (l : Life) → p ≡ not_begun → Settled p l
begins not_begun l is = tt
begins _ l is = cc

-- Where `run` has returned, and so has made both tasks, before `stop` is called, then whatever else
-- happens, in any order: once `stop` has returned, neither loop runs.
pub stopped-IsIdle :
    (l : Life) (ran : l.running ≡ has_run) (tasks : is_there l.tick_task ≡ true)
    (not_yet : l.stopping ≡ not_begun) (events : List LifeEvent)
    (returns : (live events l).stopping ≡ stopped)
    → IsIdle (live events l)
stopped-IsIdle l ran tasks not_yet events returns =
    let begun : IsOrderly l = record {
      ran = ran;
      tick_there = tasks;
      settled = begins l.stopping l not_yet;
    } in
    IsOrderly-IsIdle (live events l) (live events l).stopping returns
      (live-IsOrderly events l begun).settled
