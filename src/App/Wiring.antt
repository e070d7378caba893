-- ===== src/App/Wiring.antt =====
-- What the parts of the service that `build_service` returns do for each agent.
use Prim.Native.String
use saga_agents.Common.{
  ℕ, zero, suc, String, ◌==◌, eq_iff, eq_refl, ◌≡◌, ◌⊎◌, inl, inr, refl, sym, ap, ◌∙◌, Bool, true,
  List, [], ◌∷◌, Option, none, some, get_elem?, All, All-mono, Option-cases, Bool-cases,
}
use saga_agents.Common.Dict.{Dict, lookup}
use saga_agents.Common.Result.{Result, returned, bind-eq-returned}
use saga_agents.Config.Models.{GlobalConfig, AgentDefinition, EventTrigger, event}
use saga_agents.Config.Loader.Files.{Distinct}
use saga_agents.Proposals.Store.{Store}
use saga_agents.Triggers.Base.{RunRequest}
use saga_agents.Triggers.Executor.{waits_global, ended, skipped_unknown_or_disabled, first_phase}
use saga_agents.Triggers.Api.{http_error, accepted, verify_token, trigger_agent}
use saga_agents.Triggers.Scheduler.{job_id, last_job}
use saga_agents.Triggers.Listener.{AgentTriggerState}
use saga_agents.Triggers.Listener
use saga_agents.Triggers.Listener.States.{
  IsTriggerState, IsAgentState, init-IsAgentState, init_complete,
}
use saga_agents.App.{
  Service, definitions_by_id, register_all, external_token, listener_args, ListenerArgs,
  build_service,
}
use saga_agents.App.Agents.{IsListed, if_cases, lookup-definitions_by_id}
use saga_agents.App.Jobs.{IsById, definitions_by_id-IsById, lookup-register_all, job_of}

-- No definition that is enabled has this id.
abbrev pub IsUnlisted : String → List AgentDefinition → Type 0
IsUnlisted id agents = (a : AgentDefinition) → ¬ IsListed id a agents

listed-cases :
    (id : String) (agents : List AgentDefinition)
    → Distinct agents
    → ((a : AgentDefinition) × IsListed id a agents
        × (lookup id (definitions_by_id agents) ≡ some a))
      ⊎ (IsUnlisted id agents × (lookup id (definitions_by_id agents) ≡ none))
listed-cases id agents distinct = elim (Option-cases (lookup id (definitions_by_id agents))) [
  | inl missed ↦ inr (
    λ a listed. let found = (lookup-definitions_by_id id a agents distinct).1 listed in cc,
    missed,
  )
  | inr (a, found) ↦ inl (a, (lookup-definitions_by_id id a agents distinct).0 found, found)
]

unreturn {ℓ} : {A : Type ℓ} (a b : A) → returned a ≡ returned b → a ≡ b
unreturn a b h = cc

get_elem?-lookup :
    (id : String) (a : AgentDefinition) (by_id : Dict AgentDefinition) (i : ℕ)
    → IsById by_id
    → get_elem? by_id i ≡ some (id, a)
    → lookup id by_id ≡ some a
unfolding lookup
get_elem?-lookup id a [] i h at = cc
get_elem?-lookup id a ((key, d) ∷ rest) zero h at =
    let same_key : key ≡ id = cc in
    let same : d ≡ a = cc in
    let here : key == id ≡ true = (eq_iff key id).1 same_key in rw here (ap some same)
get_elem?-lookup id a ((key, d) ∷ rest) (suc i) (named, once, h) at =
    let found = get_elem?-lookup id a rest i h at in
    elim (Bool-cases (key == id)) [
      | inr other ↦ rw other found
      | inl this ↦
          let same = (eq_iff key id).0 this in
          let missed : lookup id rest ≡ none = rw⁻¹ same once in cc
    ]

lookup-get_elem? :
    (id : String) (a : AgentDefinition) (by_id : Dict AgentDefinition)
    → lookup id by_id ≡ some a
    → (i : ℕ) × (get_elem? by_id i ≡ some (id, a))
unfolding lookup
lookup-get_elem? id a [] found = cc
lookup-get_elem? id a ((key, d) ∷ rest) found =
    elim (if_cases (key == id) d a (lookup id rest) found) [
      | inl behind ↦ let (i, at) = lookup-get_elem? id a rest behind in (suc i, at)
      | inr (this, same) ↦ (zero, rw same (ap (λ k. some (k, a)) ((eq_iff key id).0 this)))
    ]

-- The state is that of an event trigger of an enabled definition, with a delay of a second at least.
abbrev pub IsListedState : ℕ → List AgentDefinition → AgentTriggerState → Type 0
IsListedState second agents s =
    (a : AgentDefinition) × IsListed s.agent_id a agents × IsTriggerState second a.triggers s

agent_state-IsListedState :
    (second : ℕ) (agents : List AgentDefinition) (distinct : Distinct agents)
    (s : AgentTriggerState)
    → IsAgentState second (definitions_by_id agents) s
    → IsListedState second agents s
agent_state-IsListedState second agents distinct s (i, d, at, on, state) =
    let found =
      get_elem?-lookup s.agent_id d (definitions_by_id agents) i (definitions_by_id-IsById agents)
        at in
    (d, (lookup-definitions_by_id s.agent_id d agents distinct).0 found, state)

module _ {Db Call : Type 0} (second : ℕ) (environ : String → Option String)
    (from_crontab : String → Result (Unit {0})) (config : GlobalConfig)
    (agents : List AgentDefinition) (redis : Bool) (store : Option (Store Db))
    (mcp_call : Option Call) (service : Service Db Call)
    (built : build_service second environ from_crontab config agents redis store mcp_call
      ≡ returned service) where
  -- The parts of what was returned.
  pub parts :
      (register_all from_crontab (definitions_by_id agents) [] ≡ returned service.scheduler)
      × (service.executor.definitions ≡ definitions_by_id agents)
      × (service.api.definitions ≡ definitions_by_id agents)
      × (service.api.expected_token ≡ external_token (environ "AGENTS_EXTERNAL_TOKEN"))
      × (service.listener
          ≡ listener_args second redis config.redis.event_channel (definitions_by_id agents))
      × (service.executor.global_limit ≡ service.concurrency_limit)
  unfolding build_service
  parts =
      let (jobs, registered, rest) =
        bind-eq-returned (register_all from_crontab (definitions_by_id agents) []) _ built in
      let same = unreturn _ service rest in
      (
        registered ∙ ap (λ s. returned s.scheduler) same,
        sym (ap (λ s. s.executor.definitions) same),
        sym (ap (λ s. s.api.definitions) same),
        sym (ap (λ s. s.api.expected_token) same),
        sym (ap (λ s. s.listener) same),
        sym (ap (λ s. s.executor.global_limit) same) ∙ ap (λ s. s.concurrency_limit) same,
      )

  -- A service that was built from definitions with distinct ids runs exactly the enabled ones: for
  -- an id that one of them has, the API passes an external trigger that bears the token on, and the
  -- executor lets a submit wait for its permits; for another id, the API replies 404, and the
  -- executor skips the submit.
  pub build_service-agents :
      {E : Type 0} (distinct : Distinct agents) (submit : RunRequest → E → E × Result (Unit {0}))
      (e : E) (id reason : String)
      → ((a : AgentDefinition) × IsListed id a agents
          × (first_phase service.executor (record { agent_id = id; reason = reason })
              ≡ waits_global)
          × (trigger_agent service.api.definitions service.api.expected_token submit
                (some (String.◌++◌ "Bearer " (external_token (environ "AGENTS_EXTERNAL_TOKEN"))))
                id
                e
              ≡ accepted id (submit (record { agent_id = id; reason = "external" }) e)))
        ⊎ (IsUnlisted id agents
            × (first_phase service.executor (record { agent_id = id; reason = reason })
                ≡ ended skipped_unknown_or_disabled)
            × (trigger_agent service.api.definitions service.api.expected_token submit
                  (some (String.◌++◌ "Bearer " (external_token (environ "AGENTS_EXTERNAL_TOKEN"))))
                  id
                  e
                ≡ (e, returned (http_error 404 (String.◌++◌ "Unknown agent: " id)))))
  unfolding first_phase trigger_agent verify_token
  build_service-agents distinct submit e id reason =
      let (jobs, for_executor, for_api, token, listener, limit) = parts in
      let valid =
        eq_refl (String.◌++◌ "Bearer " (external_token (environ "AGENTS_EXTERNAL_TOKEN"))) in
      elim (listed-cases id agents distinct) [
        | inl (a, listed, found) ↦ inl (
          a,
          listed,
          rw (for_executor, found, listed.2) refl,
          rw (for_api, token, valid, found) refl,
        )
        | inr (unlisted, missed) ↦
            inr (unlisted, rw (for_executor, missed) refl, rw (for_api, token, valid, missed) refl)
      ]

  -- In a service that was built from definitions with distinct ids, the scheduler has a cron job
  -- for an id exactly where an enabled definition of this id has a schedule trigger: that of the
  -- last one.
  pub build_service-jobs :
      (distinct : Distinct agents) (id : String)
      → ((a : AgentDefinition) × IsListed id a agents
          × (lookup (job_id id) service.scheduler ≡ last_job id a.triggers none))
        ⊎ (IsUnlisted id agents × (lookup (job_id id) service.scheduler ≡ none))
  unfolding lookup
  build_service-jobs distinct id =
      let jobs =
        lookup-register_all from_crontab id (definitions_by_id agents) [] service.scheduler
          (definitions_by_id-IsById agents) parts.0 in
      elim (listed-cases id agents distinct) [
        | inl (a, listed, found) ↦ inl (a, listed, jobs ∙ ap (λ o. job_of id o none) found)
        | inr (unlisted, missed) ↦ inr (unlisted, jobs ∙ ap (λ o. job_of id o none) missed)
      ]

  -- In a service that was built with a Redis client, from definitions with distinct ids, every event
  -- trigger of an enabled definition has a debouncer for its agent and its topics. Each debouncer
  -- is that of an event trigger of an enabled definition, and waits for a second at least.
  pub build_service-debounced :
      (distinct : Distinct agents) (with_redis : redis ≡ true) (a : AgentDefinition) (id : String)
      (listed : IsListed id a agents) (j : ℕ) (t : EventTrigger)
      (trigger : get_elem? a.triggers j ≡ some (event t))
      → (l : ListenerArgs) × (service.listener ≡ some l)
        × (l.channel ≡ config.redis.event_channel)
        × ((k : ℕ) × (s : AgentTriggerState) × (get_elem? l.states k ≡ some s)
            × (s.agent_id ≡ id)
            × (s.topics ≡ t.topics))
        × All (IsListedState second agents) l.states
  build_service-debounced distinct with_redis a id listed j t trigger =
      let by_id = definitions_by_id agents in
      let found = (lookup-definitions_by_id id a agents distinct).1 listed in
      let (i, at) = lookup-get_elem? id a by_id found in
      (
        record { channel = config.redis.event_channel; states = Listener.init second by_id },
        parts.4 ∙ ap (λ b. listener_args second b config.redis.event_channel by_id) with_redis,
        refl,
        init_complete second by_id i id a j t at listed.2 trigger,
        All-mono (IsAgentState second by_id) (IsListedState second agents)
            (agent_state-IsListedState second agents distinct) (Listener.init second by_id)
            (init-IsAgentState second by_id),
      )
