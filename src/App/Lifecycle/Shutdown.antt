-- ===== src/App/Lifecycle/Shutdown.antt =====
-- When the shutdown of `run_service` runs, and what it leaves open otherwise.
use saga_agents.Common.{
  ℕ, String, ◌≡◌, ◌⊎◌, inl, inr, refl, sym, ap, ◌∙◌, arith, Bool, true, false, List, [], ◌∷◌, ◌++◌,
  Option, none, some, tally, tally-append, append_assoc,
}
use saga_agents.Common.Result.{Result, returned, raised}
use saga_agents.Config.Models.{AgentDefinition, GlobalConfig}
use saga_agents.Config.Loader.{LoadError, Loaded}
use saga_agents.Proposals.Store.{Store}
use saga_agents.Triggers.Scheduler
use saga_agents.App.{ListenerArgs, build_service}
use saga_agents.App.Wiring.{parts}
use saga_agents.App.Lifecycle.{
  Effect, configures_tracing, connects, pings, inits_store, starts_scheduler, spawns_listener,
  serves, stops_listener, cancels_listener, shuts_scheduler, closes_redis, cancel_listener, Trace,
  ◌>>=◌, effect, silent, finally, or_raise, Calls, shut_down, serve_until_stopped, run_service,
}

-- The server, and the parts of the shutdown.
abbrev is_late : Effect → Bool
is_late (serves port) = true
is_late stops_listener = true
is_late cancels_listener = true
is_late shuts_scheduler = true
is_late closes_redis = true
is_late _ = false

abbrev pub cancelled : Option (Result (Unit {0})) → List Effect
cancelled none = []
cancelled (some r) = cancels_listener ∷ []

-- The task was done, or its cancellation raised nothing but CancelledError.
abbrev pub IsQuiet : Option (Result (Unit {0})) → Type 0
IsQuiet none = Unit
IsQuiet (some r) = r ≡ returned tt

module _ (calls : Calls) where
  -- The server, and the whole shutdown behind it.
  abbrev pub served : ℕ → List Effect
  served port =
      serves port ∷ stops_listener ∷ cancelled calls.listener_task
      ++ shuts_scheduler ∷ closes_redis ∷ []

  -- An exception before the server; or these effects, the server and the shutdown.
  abbrev pub Ends : List Effect → Trace (Unit {0}) → Type 0
  Ends startup x =
      ((e : String) × (x.1 ≡ raised e) × (tally is_late x.0 ≡ 0))
      ⊎ ((port : ℕ) × (x.0 ≡ startup ++ served port) × (x.1 ≡ calls.serve))

  bind-Ends :
      {A : Type 0} (m : Trace A) (f : A → Trace (Unit {0})) (rest : List Effect)
      → tally is_late m.0 ≡ 0
      → ((a : A) → m.1 ≡ returned a → Ends rest (f a))
      → Ends (m.0 ++ rest) (m >>= f)
  bind-Ends (es, raised e) f rest early next = inl (e, refl, early)
  bind-Ends (es, returned a) f rest early next = elim (next a refl) [
    | inl (e, raises, quiet) ↦
        inl (e, raises, tally-append is_late es (f a).0 ∙ omega (arith, early, quiet))
    | inr (port, same, result) ↦
        inr (port, ap (λ xs. es ++ xs) same ∙ sym (append_assoc es rest (served port)), result)
  ]

  effect-Ends :
      {A : Type 0} (e : Effect) (r : Result A) (f : A → Trace (Unit {0})) (rest : List Effect)
      → is_late e ≡ false
      → ((a : A) → Ends rest (f a))
      → Ends (e ∷ rest) (effect e r >>= f)
  unfolding tally
  effect-Ends e r f rest early next = bind-Ends (effect e r) f rest (ground arith) (λ a is. next a)

  silent-Ends :
      {A : Type 0} (r : Result A) (f : A → Trace (Unit {0})) (rest : List Effect)
      → ((a : A) → r ≡ returned a → Ends rest (f a))
      → Ends rest (silent r >>= f)
  unfolding tally
  silent-Ends r f rest next = bind-Ends (silent r) f rest refl next

  cancel_listener-eq :
      (l : ListenerArgs) (task : Option (Result (Unit {0})))
      → IsQuiet task
      → cancel_listener calls (some l) task ≡ (cancelled task, returned tt)
  cancel_listener-eq l none quiet = refl
  cancel_listener-eq l (some r) quiet = ap (effect cancels_listener) quiet

  module _ (stops : calls.listener_stop ≡ returned tt) (quiet : IsQuiet calls.listener_task)
      (shuts : calls.scheduler_shutdown ≡ returned tt) where
    shut_down-eq :
        (l : ListenerArgs)
        → shut_down calls (some l) ≡ (
          stops_listener ∷ cancelled calls.listener_task ++ shuts_scheduler ∷ closes_redis ∷ [],
          returned tt,
        )
    unfolding shut_down
    shut_down-eq l = rw (stops, cancel_listener-eq l calls.listener_task quiet, shuts) refl

    served_until-Ends :
        (l : ListenerArgs)
        → Ends (starts_scheduler ∷ spawns_listener ∷ []) (serve_until_stopped calls (some l))
    unfolding serve_until_stopped
    served_until-Ends l =
        effect-Ends starts_scheduler (Scheduler.start calls.scheduler_start false).0 _
          (spawns_listener ∷ []) refl
          (λ u. effect-Ends spawns_listener (returned tt) _ [] refl (λ u'.
            silent-Ends calls.port _ [] (λ port is.
              let closed = ap (finally (effect (serves port) calls.serve)) (shut_down-eq l) in
              inr (port, ap (λ x. x.0) closed, ap (λ x. x.1) closed))))

    listening-Ends :
        (o : Option ListenerArgs) (l : ListenerArgs)
        → o ≡ some l
        → Ends (starts_scheduler ∷ spawns_listener ∷ []) (serve_until_stopped calls o)
    listening-Ends o l is = rw is (served_until-Ends l)

    -- Where `stop` of the listener, its cancelled task and the scheduler's shutdown raise nothing:
    -- either something raised before the server, and then nothing was shut down; or everything was
    -- started in this order, the server ran, and however it ended, the listener was stopped, its
    -- task cancelled unless it was done, the scheduler shut down and the client closed, and the end
    -- of the server is the end of the service.
    pub run_service-Ends :
        {Db Call : Type 0} (second : ℕ) (environ : String → Option String)
        (from_crontab : String → Result (Unit {0})) (message : LoadError → String)
        (store : Store Db) (mcp_call : Call) (global_config : Loaded GlobalConfig)
        (agent_files : String → Loaded (List AgentDefinition))
        → Ends
            (configures_tracing ∷ connects ∷ pings ∷ inits_store ∷ starts_scheduler
              ∷ spawns_listener ∷ [])
            (run_service calls second environ from_crontab message store mcp_call global_config
              agent_files)
    unfolding run_service
    run_service-Ends second environ from_crontab message store mcp_call global_config agent_files =
        let late = starts_scheduler ∷ spawns_listener ∷ [] in
        silent-Ends (or_raise message global_config) _
          (configures_tracing ∷ connects ∷ pings ∷ inits_store ∷ late)
          (λ config c.
            silent-Ends (or_raise message (agent_files config.agents_dir)) _
              (configures_tracing ∷ connects ∷ pings ∷ inits_store ∷ late)
              (λ agents d.
                effect-Ends configures_tracing (returned tt) _
                  (connects ∷ pings ∷ inits_store ∷ late) refl
                  (λ u1.
                    effect-Ends connects calls.from_url _ (pings ∷ inits_store ∷ late) refl (λ u2.
                      effect-Ends pings (returned tt) _ (inits_store ∷ late) refl (λ u3.
                        effect-Ends inits_store calls.store_init _ late refl (λ u4.
                          silent-Ends
                            (build_service second environ from_crontab config agents true
                              (some store) (some mcp_call))
                            _ late
                            (λ service built. listening-Ends service.listener _ (
                              (parts second environ from_crontab config agents true (some store)
                                (some mcp_call) service built).4))))))))
