-- ===== src/Config/Loader/Tests.antt =====
-- Loading two agent files.
use Prim.Native.String.{String, ◌++◌}
use saga_agents.Common.{◌≡◌, ◌↔◌, refl, Bool, false, List, [], ◌∷◌, Option, none, some}
use saga_agents.Common.Json.{Json, string, object, Fields, end, field}
use saga_agents.Common.Result.{Result, returned, raised}
use saga_agents.Common.Texts.{strip_prefix}
use saga_agents.Config.Models.{AgentDefinition, default_definition}
use saga_agents.Config.Loader.{
  Validation, loaded, split_at_closing, parse_parts, parse_agent_markdown, load_agent_files,
}
use saga_agents.Config.Loader.Delimiters.{delimiter}
use saga_agents.Config.Loader.Agent.{get_field, parse_agent_markdown-render}
use saga_agents.Config.Loader.Files.{Parses, Distinct, load_agent_files_iff}

abbrev environ : String → Option String
environ name = none

-- A YAML of one mapping: the text is the id.
abbrev safe_load : String → Result Json
safe_load t = returned (object (field "id" (string t) end))

abbrev is_zero : String → Bool
is_zero t = false

abbrev prompt_of : Option Json → String
prompt_of (some (string t)) = t
prompt_of other = ""

abbrev id_of : Option Json → String
id_of (some (string t)) = t
id_of other = ""

abbrev definition_of : String → String → AgentDefinition
definition_of id prompt = record (default_definition id) { system_prompt = prompt }

abbrev validated : Fields → Option Json → Result AgentDefinition
validated fields (some (string prompt)) =
    returned (definition_of (id_of (get_field "id" fields)) prompt)
validated fields other = raised "system_prompt"

-- The files name no tools, so the validator of the tools is not called.

abbrev validate : Fields → Validation
validate fields = record {
  tools_seen = none;
  definition = validated fields (get_field "system_prompt" fields);
}

abbrev agent_text : String
agent_text = "---\njanitor\n---\n\n Clean up.\n"

abbrev janitor : AgentDefinition
janitor = definition_of "janitor" "Clean up."

none_begins : split_at_closing ("id: x" ++ "\n---") ≡ none
unfolding split_at_closing strip_prefix
none_begins = refl

parse_agent_markdown-render_example :
    parse_agent_markdown environ safe_load is_zero validate
      ("---\n" ++ ("id: x" ++ (delimiter ++ "Go")))
    ≡ parse_parts environ safe_load is_zero validate "id: x" "Go"
parse_agent_markdown-render_example =
    parse_agent_markdown-render environ safe_load is_zero validate "id: x" "Go" none_begins

abbrev files : List (String × Result String)
files = ("a.md", returned agent_text) ∷ ("b.md", returned "---\nsorter\n---\nSort.") ∷ []

abbrev sorter : AgentDefinition
sorter = definition_of "sorter" "Sort."

load_agent_files_iff_example :
    (load_agent_files environ safe_load is_zero validate files ≡ loaded (janitor ∷ sorter ∷ [])) ↔ (
      Parses environ safe_load is_zero validate files (janitor ∷ sorter ∷ [])
      × Distinct (janitor ∷ sorter ∷ []))
load_agent_files_iff_example =
    load_agent_files_iff environ safe_load is_zero validate files (janitor ∷ sorter ∷ [])
