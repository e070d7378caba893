-- ===== src/Runtime/Tests.antt =====
-- Runs of the prompt resolution, the guidance cache and the runner on concrete inputs.
use saga_agents.Common.{
  inl, ◌↔◌, without, ℕ, suc, String, ◌≡◌, refl, true, List, [], ◌∷◌, none, some, contains, All,
}
use saga_agents.Common.Dict.{Dict, insert, lookup}
use saga_agents.Common.Json.{Json}
use saga_agents.Common.Result.{Result, returned, Awaited, completes, fails}
use saga_agents.Config.Models.{GlobalConfig, AgentDefinition}
use saga_agents.Runtime.Report.{ProposedAction, RunReport}
use saga_agents.Runtime.Guidance.{fetched, referenced_keys, substitute}
use saga_agents.Runtime.Toolset.{visible_tool_names}
use saga_agents.Runtime.Session.{AgentCall, mcp, propose, limit_reached}
use saga_agents.Runtime.Session.Eager.{eager}
use saga_agents.Runtime.Runner.{AgentRunner, SpanContext, run}
use saga_agents.Config.Models.{default_definition}
use saga_agents.Runtime.Runner.Safety.{permitted, run_permitted}
use saga_agents.Runtime.Runner.Reports.{Reported, run-Reported}
use saga_agents.Runtime.Runner.Returns.{run_returns}
use saga_agents.Runtime.Guidance.{match_placeholder, GuidanceProvider, get, filled, value_of}
use saga_agents.Runtime.Guidance.{validate_placeholders, guidance_keys}
use saga_agents.Runtime.Guidance.Accepted.{References, validate_placeholders_iff}
use saga_agents.Runtime.Guidance.Substitution.{Substitutes, substitute_iff}
use saga_agents.Common.Scan.{captures, segments_from}
use saga_agents.Common.Texts.{strip_prefix, span, count}
use saga_agents.Common.Json.{string, object, field, end}

substitute_prompt : substitute "a{{saga.language}}" (("language", "de") ∷ []) ≡ "ade"
unfolding substitute filled value_of lookup segments_from strip_prefix span count match_placeholder
substitute_prompt = refl

abbrev german : Dict String
german = ("language", "de") ∷ []

substitute_iff_example :
    (substitute "a{{saga.language}}" german ≡ "ade") ↔ Substitutes german "a{{saga.language}}" "ade"
substitute_iff_example = substitute_iff "a{{saga.language}}" "ade" german

abbrev cold : GuidanceProvider
cold = record { ttl = 300; cache = none; fetched_at = none }

abbrev warm : GuidanceProvider
warm = record { ttl = 300; cache = some german; fetched_at = some 12 }

abbrev answer : Unit {0} → Result Json
answer u = returned (object (field "language" (string "de") end))

abbrev shown : Json → String
shown (string text) = text
shown other = ""

first_get : get shown 10 12 answer cold ≡ (warm, fetched german)
unfolding get insert
first_get = refl

abbrev wished : List AgentCall
wished = mcp "search" [] ∷ mcp "delete" [] ∷ propose "delete" [] "a duplicate" ∷ []

-- A sink that refuses everything.
abbrev full_sink :
    String
    → String
    → ProposedAction
    → List ProposedAction
    → List ProposedAction × Awaited (Unit {0})
full_sink agent_id run_id p s = (p ∷ s, fails "disk full")

abbrev config : GlobalConfig
config = record {
  mcp = record { base_url = "http://mcp"; bearer_token = "t" };
  ollama = record { base_url = "http://ollama"; default_model = "qwen" };
  redis = record { url = "redis://"; event_channel = "events" };
  langfuse = record { public_key = ""; secret_key = ""; host = "" };
  runtime = record {
    max_concurrent_runs_global = 2;
    proposals_db = "proposals.db";
    guidance_cache_ttl_seconds = 300;
  };
  agents_dir = "config/agents";
}

abbrev runner : AgentRunner String String ℕ (List ProposedAction)
runner = record {
  config = config;
  model_factory = λ url name. returned name;
  mcp_server_factory = λ url token. returned url;
  guidance_get = λ g. (suc g, fetched german);
  proposal_sink = some full_sink;
  agents = eager wished (limit_reached "request_limit");
  show = λ n. "900";
  format_hex = λ n. "0af7";
}

abbrev janitor : AgentDefinition
janitor = record (default_definition "janitor") {
  tools = record { allow = "search" ∷ "delete" ∷ []; write = "delete" ∷ [] };
}

abbrev traced : SpanContext
traced = record { trace_id = 2807; is_valid = true }

calls_made :
    (run runner janitor none "r1" (returned traced) 0 []).calls
    ≡ mcp "search" [] ∷ propose "delete" [] "a duplicate" ∷ []
unfolding run visible_tool_names without contains referenced_keys captures segments_from
calls_made = refl

run_permitted_example :
    All
      (λ call. permitted janitor call ≡ true)
      (run runner janitor none "r1" (returned traced) 0 []).calls
run_permitted_example = run_permitted runner janitor none "r1" (returned traced) 0 []

run-Reported_example :
    Reported runner janitor "r1" [] (run runner janitor none "r1" (returned traced) 0 [])
run-Reported_example = run-Reported runner janitor none "r1" (returned traced) 0 []

run_returns_example :
    (report : RunReport) × ((run runner janitor none "r1" (returned traced) 0 []).result
      ≡ completes report)
run_returns_example =
    run_returns runner janitor none "r1" (returned traced) 0 [] "qwen" "http://mcp" refl refl
      (λ e h. cc) (λ h. cc) (λ spec. refl) (λ spec h. cc) (λ agent_id run_id p s h. cc)

validate_placeholders_iff_example :
    (validate_placeholders "a{{saga.language}}" ≡ inl tt)
    ↔ ((key : String) → References key "a{{saga.language}}" → contains key guidance_keys ≡ true)
validate_placeholders_iff_example = validate_placeholders_iff "a{{saga.language}}"
