-- ===== src/Config/Loader.antt =====
-- src/saga_agents/config/loader.py, and the validator of ToolsSpec in config/models.py. Files, YAML
-- and pydantic are parameters: what reading a file gives, what `yaml.safe_load` gives, and what
-- pydantic makes of the fields of a mapping beside the repository's own validator.
pub mod Delimiters
pub mod Agent
pub mod Files
mod Tests
use Prim.Native.Char.{Char}
use Prim.Native.String.{String, [], ◌∷◌}
use mathlib.Core.List
use saga_agents.Common.{
  ◌==◌, Bool, true, false, ◌&&◌, List, Option, none, some, if◌then◌else◌, inl, inr, without,
}
use saga_agents.Common.Dict.{Dict, lookup, insert}
use saga_agents.Common.Json.{
  Json, null, bool, number, string, array, object, nil, Fields, end, field,
}
use saga_agents.Common.Result.{Result, returned, raised}
use saga_agents.Common.Texts.{is_space, strip_prefix, span}
use saga_agents.Config.Models.{ToolsSpec, AgentDefinition, GlobalConfig}
use saga_agents.Core.Env.{resolve_env, resolve_tree}
use saga_agents.Runtime.Guidance.{validate_placeholders}

-- The ConfigErrors of the loader, each for its message; and an exception that is not one.
pub data LoadError : Type 0 where
  unreadable not_yaml invalid unset_variable : String → LoadError
  no_frontmatter unclosed_frontmatter empty_body not_a_mapping : LoadError
  unknown_placeholders extra_write_tools : List String → LoadError
  duplicate_id : String → String → String → LoadError
  escapes : String → LoadError

pub data Loaded {ℓ} (A : Type ℓ) : Type ℓ where
  loaded : A → Loaded A
  refused : LoadError → Loaded A

infixl 5 ◌>>=◌
abbrev pub ◌>>=◌ {ℓ κ} : {A : Type ℓ} {B : Type κ} → Loaded A → (A → Loaded B) → Loaded B
loaded a >>= f = f a
refused e >>= f = refused e

-- `except … as exc: raise ConfigError(…) from exc`, or an exception that goes through.
abbrev pub or_refuse {ℓ} : {A : Type ℓ} → (String → LoadError) → Result A → Loaded A
or_refuse wrap (returned a) = loaded a
or_refuse wrap (raised e) = refused (wrap e)

-- `_write_subset_of_allow`
unfoldable pub write_subset_of_allow : ToolsSpec → Loaded (Unit {0})
write_subset_of_allow tools = elim (without tools.allow tools.write) [
  | List.[] ↦ loaded tt
  | extra ↦ refused (extra_write_tools extra)
]

-- What pydantic makes of a mapping: the lists that the validator of the tools is called with, where
-- it is called, and the definition or the ValidationError.
pub record Validation : Type 0 where
  pub tools_seen : Option ToolsSpec
  pub definition : Result AgentDefinition

unfoldable pub check_tools : Option ToolsSpec → Loaded (Unit {0})
unfolding write_subset_of_allow
check_tools none = loaded tt
check_tools (some tools) = write_subset_of_allow tools

abbrev pub with_char : Char → Option (String × String) → Option (String × String)
with_char c none = none
with_char c (some (front, tail)) = some (c ∷ front, tail)

-- `text.find("\n---\n", …)`, by the texts before and behind the first place where it stands.
unfoldable pub split_at_closing : String → Option (String × String)
split_at_closing [] = none
split_at_closing (c ∷ t) =
    let later = split_at_closing t in
    elim (strip_prefix "\n---\n" (c ∷ t)) [ some tail ↦ some ("", tail) | none ↦ with_char c later ]

abbrev is_empty : String → Bool
is_empty [] = true
is_empty (c ∷ s) = false

-- `str.rstrip` and `str.strip`
unfoldable pub rstrip : String → String
rstrip [] = []
rstrip (c ∷ s) = let rest = rstrip s in if is_space c && is_empty rest then [] else c ∷ rest

unfoldable pub strip : String → String
unfolding rstrip
strip s = rstrip (span is_space s).1

-- data[key] = value
unfoldable pub set_field : String → Json → Fields → Fields
set_field key value end = field key value end
set_field key value (field k v rest) =
    let later = set_field key value rest in if k == key then field k value rest else field k v later

module _ (environ : String → Option String) (safe_load : String → Result Json)
    (is_zero : String → Bool) where
  -- `… or {}`: what is false becomes an empty mapping.
  abbrev or_empty : Json → Json
  or_empty null = object end
  or_empty (bool false) = object end
  or_empty (string []) = object end
  or_empty (array nil) = object end
  or_empty (number n) = if is_zero n then object end else number n
  or_empty value = value

  abbrev mapping : Json → Loaded Fields
  mapping (object fields) = loaded fields
  mapping other = refused not_a_mapping

  -- `if not body`
  abbrev pub nonempty : String → Loaded String
  nonempty [] = refused empty_body
  nonempty body = loaded body

  abbrev known : String → Loaded (Unit {0})
  known body = elim (validate_placeholders body) [
    | inl u ↦ loaded tt
    | inr keys ↦ refused (unknown_placeholders keys)
  ]

  module _ (validate : Fields → Validation) where
    -- `AgentDefinition.model_validate`. The ConfigError of the validator of the tools is not one of
    -- the errors that pydantic collects: it is raised at once.
    unfoldable pub model_validate : Fields → Loaded AgentDefinition
    unfolding check_tools
    model_validate fields = do
      checked ← check_tools (validate fields).tools_seen
      or_refuse invalid (validate fields).definition

    -- `parse_agent_markdown` behind the split of the text
    unfoldable pub parse_parts : String → String → Loaded AgentDefinition
    unfolding model_validate
    parse_parts front tail = do
      body ← nonempty (strip tail)
      resolved ← or_refuse unset_variable (resolve_env environ front)
      parsed ← or_refuse escapes (safe_load resolved)
      fields ← mapping (or_empty parsed)
      checked ← known body
      model_validate (set_field "system_prompt" (string body) fields)

    abbrev pub closed : Option (String × String) → Loaded AgentDefinition
    closed none = refused unclosed_frontmatter
    closed (some (front, tail)) = parse_parts front tail

    abbrev pub opened : Option String → Loaded AgentDefinition
    opened none = refused no_frontmatter
    opened (some rest) = closed (split_at_closing rest)

    unfoldable pub parse_agent_markdown : String → Loaded AgentDefinition
    unfolding parse_parts split_at_closing
    parse_agent_markdown text = opened (strip_prefix "---\n" text)

    -- The loop of `load_agent_files` over the files in the order of their names: what each is called,
    -- and what reading it gives.
    unfoldable pub load_from :
        Dict String → List (String × Result String) → Loaded (List AgentDefinition)
    load_from seen List.[] = loaded List.[]
    load_from seen (List.◌∷◌ (name, content) files) = do
      text ← or_refuse escapes content
      agent ← parse_agent_markdown text
      elim (lookup agent.id seen) [
        | some first ↦ refused (duplicate_id agent.id name first)
        | none ↦ do
          agents ← load_from (insert agent.id name seen) files
          loaded (List.◌∷◌ agent agents)
      ]

    unfoldable pub load_agent_files : List (String × Result String) → Loaded (List AgentDefinition)
    load_agent_files files = load_from List.[] files

  module _ (validate : Json → Result GlobalConfig) where
    -- What reading the file raises is an OSError, and what `safe_load` raises a YAMLError; any other
    -- exception of theirs would leave as it is, and is not modelled here.
    unfoldable pub load_global_config : Result String → Loaded GlobalConfig
    load_global_config content = do
      text ← or_refuse unreadable content
      raw ← or_refuse not_yaml (safe_load text)
      resolved ← or_refuse unset_variable (resolve_tree environ raw)
      or_refuse invalid (validate resolved)
