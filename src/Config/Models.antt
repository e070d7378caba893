-- ===== src/Config/Models.antt =====
-- src/saga_agents/config/models.py: triggers, tool lists, limits and agent definitions.
-- Permits, limits and seconds are natural numbers: pydantic lets negative ones through, and those are
-- not modelled.
use saga_agents.Common.{ℕ, String, Bool, true, List, [], Option, none}
use saga_agents.Common.Dict.{Dict}
use saga_agents.Common.Int.{ℤ}
use saga_agents.Common.Json.{Json}

pub record EventTrigger : Type 0 where
  pub topics : List String
  pub debounce_minutes : ℤ

pub record ScheduleTrigger : Type 0 where
  pub cron : String

-- The union that `type` discriminates.
pub data Trigger : Type 0 where
  event : EventTrigger → Trigger
  schedule : ScheduleTrigger → Trigger
  external : Trigger

pub record ToolsSpec : Type 0 where
  pub allow : List String
  pub write : List String

pub record Limits : Type 0 where
  pub max_steps : ℕ
  pub max_tool_calls : ℕ
  pub timeout_seconds : ℕ
  pub max_concurrent_runs : ℕ

pub data Autonomy : Type 0 where
  proposal autonomous : Autonomy

pub record AgentDefinition : Type 0 where
  pub id : String
  pub enabled : Bool
  pub description : String
  pub model : Option String
  pub autonomy : Autonomy
  pub tools : ToolsSpec
  pub triggers : List Trigger
  pub limits : Limits
  pub context : Dict Json
  pub system_prompt : String

abbrev pub default_limits : Limits
default_limits = record {
  max_steps = 40;
  max_tool_calls = 100;
  timeout_seconds = 900;
  max_concurrent_runs = 1;
}

-- A definition whose frontmatter holds the id alone.
abbrev pub default_definition : String → AgentDefinition
default_definition id = record {
  id = id;
  enabled = true;
  description = "";
  model = none;
  autonomy = proposal;
  tools = record { allow = []; write = [] };
  triggers = [];
  limits = default_limits;
  context = [];
  system_prompt = "";
}

pub record McpSettings : Type 0 where
  pub base_url : String
  pub bearer_token : String

pub record OllamaSettings : Type 0 where
  pub base_url : String
  pub default_model : String

pub record RedisSettings : Type 0 where
  pub url : String
  pub event_channel : String

pub record LangfuseSettings : Type 0 where
  pub public_key : String
  pub secret_key : String
  pub host : String

pub record RuntimeSettings : Type 0 where
  pub max_concurrent_runs_global : ℕ
  pub proposals_db : String
  pub guidance_cache_ttl_seconds : ℕ

pub record GlobalConfig : Type 0 where
  pub mcp : McpSettings
  pub ollama : OllamaSettings
  pub redis : RedisSettings
  pub langfuse : LangfuseSettings
  pub runtime : RuntimeSettings
  pub agents_dir : String
