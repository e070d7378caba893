-- ===== src/App/Lifecycle/Startup.antt =====
-- What the files have to be for `main` to do anything.
use saga_agents.Common.{ℕ, String, ◌≡◌, ◌⊎◌, inl, inr, refl, List, [], Option}
use saga_agents.Common.Result.{Result, raised}
use saga_agents.Config.Models.{AgentDefinition, GlobalConfig}
use saga_agents.Config.Loader.{LoadError, Loaded, loaded, refused}
use saga_agents.Config.Loader.Files.{Parses, Distinct, load_agent_files_iff}
use saga_agents.Proposals.Store.{Store}
use saga_agents.App.Lifecycle.{Calls, Trace, Sources, global_config, agent_files, run_service, main}

Loaded-cases :
    {A : Type 0} → (x : Loaded A) → ((a : A) × (x ≡ loaded a)) ⊎ ((e : LoadError) × (x ≡ refused e))
Loaded-cases (loaded a) = inl (a, refl)
Loaded-cases (refused e) = inr (e, refl)

module _ (sources : Sources) (environ : String → Option String) where
  -- The configuration is refused with this error, or the agent files in its directory are.
  abbrev pub IsRefused : LoadError → Type 0
  IsRefused e =
      (global_config sources environ ≡ refused e)
      ⊎ ((config : GlobalConfig) × (global_config sources environ ≡ loaded config)
          × (agent_files sources environ config.agents_dir ≡ refused e))

module _ {Db Call : Type 0} (sources : Sources) (environ : String → Option String) (calls : Calls)
    (second : ℕ) (from_crontab : String → Result (Unit {0})) (message : LoadError → String)
    (store : Store Db) (mcp_call : Call) where
  abbrev started : Loaded GlobalConfig → (String → Loaded (List AgentDefinition)) → Trace (Unit {0})
  started config files =
      run_service calls second environ from_crontab message store mcp_call config files

  refused-started :
      (config : Loaded GlobalConfig) (files : String → Loaded (List AgentDefinition))
      (e : LoadError)
      → config ≡ refused e
      → started config files ≡ ([], raised (message e))
  unfolding run_service
  refused-started config files e h = rw h refl

  refused_files-started :
      (config : Loaded GlobalConfig) (files : String → Loaded (List AgentDefinition))
      (c : GlobalConfig) (e : LoadError)
      → config ≡ loaded c
      → files c.agents_dir ≡ refused e
      → started config files ≡ ([], raised (message e))
  unfolding run_service
  refused_files-started config files c e h h' = rw (h, h') refl

  loaded-started :
      (config : Loaded GlobalConfig) (files : String → Loaded (List AgentDefinition))
      (c : GlobalConfig) (agents : List AgentDefinition)
      → config ≡ loaded c
      → files c.agents_dir ≡ loaded agents
      → started config files ≡ started (loaded c) (λ dir. loaded agents)
  unfolding run_service
  loaded-started config files c agents h h' = rw (h, h') refl

  -- Either the configuration is refused, or it is loaded and the agent files of its directory are
  -- refused; then `main` raises the message of that refusal and has done nothing else: no connection,
  -- no table, no job, no task. Or the configuration was loaded from the path that the environment or
  -- the default names, each agent file of its directory can be read and is the text of a definition,
  -- no two definitions have one id, and `main` runs the service with them.
  pub main-cases :
      ((e : LoadError) × IsRefused sources environ e
        × (main sources environ calls second from_crontab message store mcp_call
            ≡ ([], raised (message e))))
      ⊎ ((config : GlobalConfig) × (agents : List AgentDefinition) × (global_config sources environ
            ≡ loaded config)
          × Parses environ sources.safe_load sources.is_zero sources.validate_agent
              (sources.markdown_files config.agents_dir)
              agents
          × Distinct agents
          × (main sources environ calls second from_crontab message store mcp_call
              ≡ run_service calls second environ from_crontab message store mcp_call
                  (loaded config)
                  (λ dir. loaded agents)))
  unfolding main
  main-cases = elim (Loaded-cases (global_config sources environ)) [
    | inr (e, h) ↦ inl (e, inl h, refused-started _ (agent_files sources environ) e h)
    | inl (config, h) ↦ elim (Loaded-cases (agent_files sources environ config.agents_dir)) [
      | inr (e, h') ↦ inl (
        e,
        inr (config, h, h'),
        refused_files-started _ (agent_files sources environ) config e h h',
      )
      | inl (agents, h') ↦
          let (parses, distinct) =
            (load_agent_files_iff environ sources.safe_load sources.is_zero sources.validate_agent
                (sources.markdown_files config.agents_dir) agents).0
              h' in
          inr (
            config,
            agents,
            h,
            parses,
            distinct,
            loaded-started _ (agent_files sources environ) config agents h h',
          )
    ]
  ]
