-- ===== src/Config/Loader/Files.antt =====
-- Which definitions `load_agent_files` returns, and when it does.
use Prim.Native.String.{String}
use mathlib.Core.List.{List, [], ◌∷◌}
use saga_agents.Common.{
  ◌≡◌, ◌↔◌, ◌∙◌, refl, sym, ap, arith, ◌==◌, Bool, false, Option, none, some, All, inl, inr,
  Bool-cases,
}
use saga_agents.Common.Dict.{Dict, lookup, insert, lookup-insert}
use saga_agents.Common.Json.{Json, Fields}
use saga_agents.Common.Result.{Result, returned, raised}
use saga_agents.Config.Models.{AgentDefinition}
use saga_agents.Config.Loader.{
  Validation, Loaded, loaded, refused, duplicate_id, ◌>>=◌, or_refuse, escapes,
  parse_agent_markdown, load_from, load_agent_files,
}
use saga_agents.Config.Loader.Agent.{bind-eq-loaded}

-- No two of the definitions have one id.
abbrev pub Distinct : List AgentDefinition → Type 0
Distinct [] = Unit
Distinct (a ∷ agents) = All (λ b. (a.id == b.id) ≡ false) agents × Distinct agents

-- None of the ids is in the table.
abbrev Unseen : Dict String → List AgentDefinition → Type 0
Unseen seen agents = All (λ a. lookup a.id seen ≡ none) agents

Unseen-insert :
    (id name : String) (seen : Dict String) (agents : List AgentDefinition)
    → Unseen (insert id name seen) agents
      ↔ (All (λ b. (id == b.id) ≡ false) agents × Unseen seen agents)
Unseen-insert id name seen [] = (λ h. (tt, tt), λ h. tt)
Unseen-insert id name seen (a ∷ agents) =
    let ih = Unseen-insert id name seen agents in
    let here = lookup-insert id a.id name seen in
    elim (Bool-cases (id == a.id)) [
      | inl same ↦
          (λ h. let bad = sym here ∙ h.0 in ground arith, λ h. let bad = h.0.0 in ground arith)
      | inr other ↦
          let is : lookup a.id (insert id name seen) ≡ lookup a.id seen = here ∙ rw other refl in
          (
            λ h. let later = ih.0 h.1 in ((other, later.0), (sym is ∙ h.0, later.1)),
            λ h. (is ∙ h.1.0, ih.1 (h.0.1, h.1.1)),
          )
    ]

module _ (environ : String → Option String) (safe_load : String → Result Json)
    (is_zero : String → Bool) (validate : Fields → Validation) where
  -- Each file can be read, and is the text of the definition at its place.
  abbrev pub Parses : List (String × Result String) → List AgentDefinition → Type 0
  Parses [] [] = Unit
  Parses ((name, content) ∷ files) (a ∷ agents) =
      ((text : String) × (content ≡ returned text)
        × (parse_agent_markdown environ safe_load is_zero validate text ≡ loaded a))
      × Parses files agents
  Parses files agents = ⊥

  abbrev continued :
      Dict String
      → String
      → List (String × Result String)
      → AgentDefinition
      → Option String
      → Loaded (List AgentDefinition)
  continued seen name files agent (some first) = refused (duplicate_id agent.id name first)
  continued seen name files agent none = do
    agents ← load_from environ safe_load is_zero validate (insert agent.id name seen) files
    loaded (agent ∷ agents)

  load_from_seen :
      (seen : Dict String) (name : String) (files : List (String × Result String))
      (agent : AgentDefinition) (o : Option String)
      → (elim o [
        | some first ↦ refused (duplicate_id agent.id name first)
        | none ↦ do
          agents ← load_from environ safe_load is_zero validate (insert agent.id name seen) files
          loaded (agent ∷ agents)
      ])
        ≡ continued seen name files agent o
  load_from_seen seen name files agent none = refl
  load_from_seen seen name files agent (some first) = refl

  load_from-cons :
      (seen : Dict String) (name text : String) (files : List (String × Result String))
      (agent : AgentDefinition)
      → parse_agent_markdown environ safe_load is_zero validate text ≡ loaded agent
      → load_from environ safe_load is_zero validate seen ((name, returned text) ∷ files)
        ≡ continued seen name files agent (lookup agent.id seen)
  unfolding load_from
  load_from-cons seen name text files agent h =
      rw h (load_from_seen seen name files agent (lookup agent.id seen))

  continued-loaded :
      (seen : Dict String) (name : String) (files : List (String × Result String))
      (agent : AgentDefinition) (o : Option String) (agents : List AgentDefinition)
      → continued seen name files agent o ≡ loaded agents
      → (o ≡ none)
        × (rest : List AgentDefinition) × (load_from environ safe_load is_zero validate
              (insert agent.id name seen)
              files
            ≡ loaded rest)
        × (agents ≡ agent ∷ rest)
  continued-loaded seen name files agent (some first) agents h = cc
  continued-loaded seen name files agent none agents h =
      let (rest, e, same) =
        bind-eq-loaded
          (load_from environ safe_load is_zero validate (insert agent.id name seen) files) _ h in
      (refl, rest, e, cc)

  read_loaded :
      (content : Result String) (text : String)
      → or_refuse escapes content ≡ loaded text
      → content ≡ returned text
  read_loaded (returned x) text h = cc
  read_loaded (raised e) text h = cc

  load_from_sound :
      (seen : Dict String) (files : List (String × Result String)) (agents : List AgentDefinition)
      → load_from environ safe_load is_zero validate seen files ≡ loaded agents
      → Parses files agents × Unseen seen agents × Distinct agents
  unfolding load_from
  load_from_sound seen [] [] h = (tt, tt, tt)
  load_from_sound seen [] (a ∷ agents) h = cc
  load_from_sound seen ((name, content) ∷ files) agents h =
      let (text, read, h1) = bind-eq-loaded (or_refuse escapes content) _ h in
      let (agent, parsed, h2) =
        bind-eq-loaded (parse_agent_markdown environ safe_load is_zero validate text) _ h1 in
      let (unseen, rest, e, split) =
        continued-loaded seen name files agent (lookup agent.id seen) agents
          (sym (load_from_seen seen name files agent (lookup agent.id seen)) ∙ h2) in
      let (parses, later, distinct) = load_from_sound (insert agent.id name seen) files rest e in
      let (others, before) = (Unseen-insert agent.id name seen rest).0 later in
      rw split (
        ((text, read_loaded content text read, parsed), parses),
        (unseen, before),
        (others, distinct),
      )

  load_from_complete :
      (seen : Dict String) (files : List (String × Result String)) (agents : List AgentDefinition)
      → Parses files agents
      → Unseen seen agents
      → Distinct agents
      → load_from environ safe_load is_zero validate seen files ≡ loaded agents
  unfolding load_from
  load_from_complete seen [] [] p u d = refl
  load_from_complete seen [] (a ∷ agents) p u d = elim p [ ]
  load_from_complete seen ((name, content) ∷ files) [] p u d = elim p [ ]
  load_from_complete seen ((name, content) ∷ files) (a ∷ agents) ((text, read, parsed), p) u d =
      let rest =
        load_from_complete (insert a.id name seen) files agents p
          ((Unseen-insert a.id name seen agents).1 (d.0, u.1)) d.1 in
      ap (λ x. load_from environ safe_load is_zero validate seen ((name, x) ∷ files)) read
      ∙ load_from-cons seen name text files a parsed
      ∙ ap (continued seen name files a) u.0
      ∙ rw rest

  none_seen : (agents : List AgentDefinition) → Unseen [] agents
  unfolding lookup
  none_seen [] = tt
  none_seen (a ∷ agents) = (refl, none_seen agents)

  -- `load_agent_files` returns these definitions exactly when each file can be read and is the text
  -- of the definition at its place, and no two definitions have one id.
  pub load_agent_files_iff :
      (files : List (String × Result String)) (agents : List AgentDefinition)
      → (load_agent_files environ safe_load is_zero validate files ≡ loaded agents)
        ↔ (Parses files agents × Distinct agents)
  unfolding load_agent_files
  load_agent_files_iff files agents = (
    λ h. let (p, u, d) = load_from_sound [] files agents h in (p, d),
    λ h. load_from_complete [] files agents h.0 (none_seen agents) h.1,
  )
