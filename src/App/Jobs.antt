-- ===== src/App/Jobs.antt =====
-- Which cron jobs `build_service` registers.
use saga_agents.Common.{
  String, ◌==◌, eq_iff, ◌≡◌, inl, inr, refl, sym, ap, ◌∙◌, arith, Bool, true, false, List, [], ◌∷◌,
  Option, none, some, if◌then◌else◌, Bool-cases,
}
use saga_agents.Common.Dict.{Dict, lookup, insert, lookup-insert}
use saga_agents.Common.Result.{Result, returned, bind-eq-returned}
use saga_agents.Config.Models.{AgentDefinition}
use saga_agents.Triggers.Scheduler.{Job, job_id, register, last_job, lookup-register}
use Prim.Native.String
use saga_agents.Common.Texts.{strip_prefix}
use saga_agents.Common.Texts.Parts.{strip_prefix-append}
use saga_agents.App.{collect, definitions_by_id, register_all}

prefixed : (p a b : String) → String.◌++◌ p a ≡ String.◌++◌ p b → a ≡ b
prefixed p a b h =
    let both = sym (strip_prefix-append p a) ∙ ap (strip_prefix p) h ∙ strip_prefix-append p b in cc

-- Two agents have two job ids.
job_id-eq : (a b : String) → (job_id a == job_id b) ≡ (a == b)
unfolding job_id
job_id-eq a b = ground (
  arith,
  eq_iff a b,
  eq_iff (String.◌++◌ "cron:" a) (String.◌++◌ "cron:" b),
  prefixed "cron:" a b,
  ap (String.◌++◌ "cron:"),
)

-- Each definition stands under its id, and no id stands twice.
abbrev pub IsById : Dict AgentDefinition → Type 0
IsById [] = Unit
IsById ((key, d) ∷ rest) = (d.id ≡ key) × (lookup key rest ≡ none) × IsById rest

insert-IsById :
    (a : AgentDefinition) (by_id : Dict AgentDefinition)
    → IsById by_id
    → IsById (insert a.id a by_id)
unfolding insert lookup
insert-IsById a [] h = (refl, refl, tt)
insert-IsById a ((key, d) ∷ rest) (named, once, h) = elim (Bool-cases (key == a.id)) [
  | inl same ↦ let is : a.id ≡ key = ground (arith, eq_iff key a.id) in rw same ((is, once, h))
  | inr other ↦
      let not_this : (if a.id == key then some a else lookup key rest) ≡ none =
        ground (arith, eq_iff key a.id, eq_iff a.id key) in
      rw other ((named, lookup-insert a.id key a rest ∙ not_this, insert-IsById a rest h))
]

put-IsById :
    (b : Bool) (a : AgentDefinition) (by_id : Dict AgentDefinition)
    → IsById by_id
    → IsById (if b then insert a.id a by_id else by_id)
put-IsById true a by_id h = insert-IsById a by_id h
put-IsById false a by_id h = h

collect-IsById :
    (agents : List AgentDefinition) (by_id : Dict AgentDefinition)
    → IsById by_id
    → IsById (collect agents by_id)
unfolding collect
collect-IsById [] by_id h = h
collect-IsById (a ∷ agents) by_id h =
    collect-IsById agents (if a.enabled then insert a.id a by_id else by_id)
      (put-IsById a.enabled a by_id h)

pub definitions_by_id-IsById : (agents : List AgentDefinition) → IsById (definitions_by_id agents)
unfolding definitions_by_id
definitions_by_id-IsById agents = collect-IsById agents [] tt

returned-eq : (jobs jobs' : Dict Job) → returned jobs ≡ returned jobs' → jobs' ≡ jobs
returned-eq jobs jobs' h = cc

-- The job of a definition, if there is one.
abbrev pub job_of : String → Option AgentDefinition → Option Job → Option Job
job_of id none before = before
job_of id (some a) before = last_job id a.triggers before

module _ (from_crontab : String → Result (Unit {0})) where
  pub lookup-register_all :
      (id : String) (by_id : Dict AgentDefinition) (jobs jobs' : Dict Job)
      → IsById by_id
      → register_all from_crontab by_id jobs ≡ returned jobs'
      → lookup (job_id id) jobs' ≡ job_of id (lookup id by_id) (lookup (job_id id) jobs)
  unfolding register_all lookup
  lookup-register_all id [] jobs jobs' h r = ap (lookup (job_id id)) (returned-eq jobs jobs' r)
  lookup-register_all id ((key, d) ∷ rest) jobs jobs' (named, once, h) r =
      let (jobs1, e, later) = bind-eq-returned (register from_crontab d.id d.triggers jobs) _ r in
      let ih = lookup-register_all id rest jobs1 jobs' h later in
      let here = lookup-register from_crontab d.id (job_id id) d.triggers jobs jobs1 e in
      elim (Bool-cases (d.id == id)) [
        | inl this ↦
            let same : d.id ≡ id = ground (arith, eq_iff d.id id) in
            let found : key == id ≡ true = ground (arith, eq_iff key id) in
            let once_id : lookup id rest ≡ none = rw⁻¹ (sym named ∙ same) once in
            let job : job_id d.id == job_id id ≡ true = job_id-eq d.id id ∙ this in
            rw found (
              ih
              ∙ ap (λ o. job_of id o (lookup (job_id id) jobs1)) once_id
              ∙ here
              ∙ rw (job, same) refl)
        | inr other ↦
            let missed : key == id ≡ false = rw⁻¹ named other in
            let job : job_id d.id == job_id id ≡ false = job_id-eq d.id id ∙ other in
            rw missed (ih ∙ ap (job_of id (lookup id rest)) (here ∙ rw job refl))
      ]
