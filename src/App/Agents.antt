-- ===== src/App/Agents.antt =====
-- Which definition stands under an id in the table of `build_service`.
use saga_agents.Common.{
  ℕ, zero, suc, String, ◌==◌, eq_iff, ◌≡◌, ◌↔◌, ◌⊎◌, inl, inr, refl, sym, ap, ◌∙◌, arith, Bool,
  true, false, ◌&&◌, List, [], ◌∷◌, Option, none, some, get_elem?, All, if◌then◌else◌,
}
use saga_agents.Common.Dict.{Dict, lookup, insert, lookup-insert}
use saga_agents.Config.Models.{AgentDefinition}
use saga_agents.Config.Loader.Files.{Distinct}
use saga_agents.App.{collect, definitions_by_id}

-- The definition stands in the list, is enabled and has this id.
abbrev pub IsListed : String → AgentDefinition → List AgentDefinition → Type 0
IsListed id a agents = (i : ℕ) × (get_elem? agents i ≡ some a) × (a.enabled ≡ true) × (a.id ≡ id)

-- The last enabled definition of an id, or what was there before.
abbrev last_enabled :
    String → List AgentDefinition → Option AgentDefinition → Option AgentDefinition
last_enabled id [] before = before
last_enabled id (a ∷ agents) before =
    last_enabled id agents (if a.enabled && a.id == id then some a else before)

lookup-put :
    (b : Bool) (k id : String) (a : AgentDefinition) (by_id : Dict AgentDefinition)
    → lookup id (if b then insert k a by_id else by_id)
      ≡ (if b && k == id then some a else lookup id by_id)
lookup-put true k id a by_id = lookup-insert k id a by_id
lookup-put false k id a by_id = refl

pub if_cases :
    (x : Bool) (b a : AgentDefinition) (before : Option AgentDefinition)
    → (if x then some b else before) ≡ some a
    → (before ≡ some a) ⊎ ((x ≡ true) × (b ≡ a))
if_cases true b a before h = inr (refl, cc)
if_cases false b a before h = inl h

lookup-collect :
    (id : String) (agents : List AgentDefinition) (by_id : Dict AgentDefinition)
    → lookup id (collect agents by_id) ≡ last_enabled id agents (lookup id by_id)
unfolding collect
lookup-collect id [] by_id = refl
lookup-collect id (a ∷ agents) by_id =
    lookup-collect id agents (if a.enabled then insert a.id a by_id else by_id)
    ∙ ap (last_enabled id agents) (lookup-put a.enabled a.id id a by_id)

later :
    {a : AgentDefinition} (b : AgentDefinition) (id : String) (agents : List AgentDefinition)
    → IsListed id a agents
    → IsListed id a (b ∷ agents)
later b id agents (i, at, on, named) = (suc i, at, on, named)

last_enabled-IsListed :
    (id : String) (agents : List AgentDefinition) (before : Option AgentDefinition)
    (a : AgentDefinition)
    → last_enabled id agents before ≡ some a
    → (before ≡ some a) ⊎ IsListed id a agents
last_enabled-IsListed id [] before a h = inl h
last_enabled-IsListed id (b ∷ agents) before a h =
    elim (last_enabled-IsListed id agents (if b.enabled && b.id == id then some b else before) a
      h) [
        | inr listed ↦ inr (later b id agents listed)
        | inl first ↦ elim (if_cases (b.enabled && b.id == id) b a before first) [
          | inl old ↦ inl old
          | inr (this, same) ↦
              let named : b.id ≡ id = ground (arith, eq_iff b.id id) in
              let on : b.enabled ≡ true = ground arith in
              inr (
                0,
                ap some same,
                sym (ap (λ d. d.enabled) same) ∙ on,
                sym (ap (λ d. d.id) same) ∙ named,
              )
        ]
      ]

-- The definitions behind have other ids.
last_enabled_others :
    (id : String) (agents : List AgentDefinition) (before : Option AgentDefinition)
    → All (λ b. (id == b.id) ≡ false) agents
    → last_enabled id agents before ≡ before
last_enabled_others id [] before others = refl
last_enabled_others id (b ∷ agents) before (other, others) =
    let no : b.enabled && b.id == id ≡ false = ground (arith, eq_iff id b.id, eq_iff b.id id) in
    rw no (last_enabled_others id agents before others)

last_enabled_listed :
    (id : String) (agents : List AgentDefinition) (before : Option AgentDefinition)
    (a : AgentDefinition) (i : ℕ)
    → Distinct agents
    → get_elem? agents i ≡ some a
    → a.enabled ≡ true
    → a.id ≡ id
    → last_enabled id agents before ≡ some a
last_enabled_listed id [] before a i d at on named = cc
last_enabled_listed id (b ∷ agents) before a zero (others, d) at on named =
    let same : b ≡ a = cc in
    let is : b.id ≡ id = ap (λ d. d.id) same ∙ named in
    let yes_b : b.enabled && b.id == id ≡ true =
      let on_b : b.enabled ≡ true = ap (λ d. d.enabled) same ∙ on in
      ground (arith, eq_iff b.id id) in
    rw yes_b (last_enabled_others id agents (some b) (rw⁻¹ is others) ∙ at)
last_enabled_listed id (b ∷ agents) before a (suc i) (others, d) at on named =
    last_enabled_listed id agents (if b.enabled && b.id == id then some b else before) a i d at on
      named

pub lookup-definitions_by_id :
    (id : String) (a : AgentDefinition) (agents : List AgentDefinition)
    → Distinct agents
    → (lookup id (definitions_by_id agents) ≡ some a) ↔ IsListed id a agents
unfolding definitions_by_id lookup
lookup-definitions_by_id id a agents d = (
  λ h. elim (last_enabled-IsListed id agents none a (sym (lookup-collect id agents []) ∙ h)) [
    | inl nothing ↦ cc
    | inr listed ↦ listed
  ],
  λ (i, at, on, named).
      lookup-collect id agents [] ∙ last_enabled_listed id agents none a i d at on named,
)
