-- ===== src/Config/Loader/Agent.antt =====
-- What an agent file must be, for `parse_agent_markdown` to return a definition.
use Prim.Native.String.{String, ◌++◌}
use saga_agents.Common.{
  ◌≡◌, ◌≢◌, ◌∙◌, refl, ap, ◌==◌, Bool, true, Option, none, some, if◌then◌else◌, contains, All, inl,
}
use saga_agents.Common.Json.{Json, Fields, end, field}
use saga_agents.Common.Result.{Result}
use saga_agents.Config.Models.{AgentDefinition}
use saga_agents.Runtime.Guidance.{validate_placeholders}
use saga_agents.Config.Loader.{
  Loaded, loaded, refused, ◌>>=◌, split_at_closing, strip, Validation, parse_parts, closed, opened,
  parse_agent_markdown,
}
use saga_agents.Config.Loader.Delimiters.{EndsAt, delimiter, split_at_closing_iff}
use saga_agents.Common.Texts.Parts.{strip_prefix-append}

pub bind-eq-loaded {ℓ κ} :
    {A : Type ℓ} {B : Type κ} (m : Loaded A) (f : A → Loaded B) {b : B}
    → (m >>= f) ≡ loaded b
    → (a : A) × (m ≡ loaded a) × (f a ≡ loaded b)
bind-eq-loaded (loaded a) f h = (a, refl, h)
bind-eq-loaded (refused e) f h = cc

unfoldable pub get_field : String → Fields → Option Json
get_field key end = none
get_field key (field k v rest) = if k == key then some v else get_field key rest

-- What the text of an agent file is, and what its definition has from it.
pub record IsAgentFile (text : String) (d : AgentDefinition) : Type 0 where
  pub front : String
  pub tail : String
  pub rest : String
  pub begins : text ≡ "---\n" ++ rest
  pub closes : EndsAt rest front tail
  pub prompt : d.system_prompt ≡ strip tail
  pub has_prompt : d.system_prompt ≢ ""
  pub placeholders : validate_placeholders d.system_prompt ≡ inl tt
  pub tools : All (λ name. contains name d.tools.allow ≡ true) d.tools.write

module _ (environ : String → Option String) (safe_load : String → Result Json)
    (is_zero : String → Bool) (validate : Fields → Validation) where
  -- A file that is written as `---`, a frontmatter in which no closing `---` begins, `---` and a body
  -- is read back as this frontmatter and this body.
  pub parse_agent_markdown-render :
      (front body : String)
      → split_at_closing (front ++ "\n---") ≡ none
      → parse_agent_markdown environ safe_load is_zero validate
          ("---\n" ++ (front ++ (delimiter ++ body)))
        ≡ parse_parts environ safe_load is_zero validate front body
  unfolding parse_agent_markdown
  parse_agent_markdown-render front body h =
      let rest : String = front ++ (delimiter ++ body) in
      ap (opened environ safe_load is_zero validate) (strip_prefix-append "---\n" rest)
      ∙ ap (closed environ safe_load is_zero validate)
          ((split_at_closing_iff rest front body).1 (record { whole = refl; first = h }))
