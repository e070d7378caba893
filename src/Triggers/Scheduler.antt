-- ===== src/Triggers/Scheduler.antt =====
-- src/saga_agents/triggers/scheduler.py, and the loop of `build_service` (src/saga_agents/app.py)
-- that registers the schedule triggers. APScheduler is a table of jobs by id, in which `add_job` with
-- `replace_existing` sets the entry; `from_crontab` is a parameter that returns or raises.
mod Tests
use Prim.Native.String
use saga_agents.Common.{
  String, ◌==◌, eq_iff, ◌≡◌, ◌∙◌, refl, arith, Bool, true, false, List, [], ◌∷◌, Option, none, some,
  if◌then◌else◌,
}
use saga_agents.Common.Dict.{Dict, lookup, insert, lookup-insert}
use saga_agents.Common.Result.{Result, returned, raised, ◌>>=◌, bind-eq-returned}
use saga_agents.Config.Models.{Trigger, event, schedule, external}
use saga_agents.Triggers.Base.{RunRequest}

unfoldable pub job_id : String → String
job_id agent_id = String.◌++◌ "cron:" agent_id

-- `_fire`
abbrev pub fired : String → RunRequest
fired agent_id = record { agent_id = agent_id; reason = "schedule" }

-- A job: its cron expression, and the request that it submits.
pub record Job : Type 0 where
  pub cron : String
  pub request : RunRequest

module _ (from_crontab : String → Result (Unit {0})) where
  unfoldable pub add : String → String → Dict Job → Result (Dict Job)
  add agent_id cron jobs = do
    parsed ← from_crontab cron
    returned (insert (job_id agent_id) (record { cron = cron; request = fired agent_id }) jobs)

  -- The inner loop of `build_service` over `definition.triggers`.
  unfoldable pub register : String → List Trigger → Dict Job → Result (Dict Job)
  unfolding add
  register agent_id [] jobs = returned jobs
  register agent_id (schedule trigger ∷ triggers) jobs = do
    jobs' ← add agent_id trigger.cron jobs
    register agent_id triggers jobs'
  register agent_id (event trigger ∷ triggers) jobs = register agent_id triggers jobs
  register agent_id (external ∷ triggers) jobs = register agent_id triggers jobs

-- `start` over `_started`: what APScheduler's start returns or raises, and the flag.
abbrev pub start : Result (Unit {0}) → Bool → Result (Unit {0}) × Bool
start (returned u) started = (returned tt, true)
start (raised e) started = (raised e, started)

-- `shutdown`, which does nothing where the scheduler was not started.
abbrev pub shutdown : Result (Unit {0}) → Bool → Result (Unit {0}) × Bool
shutdown r false = (returned tt, false)
shutdown (returned u) true = (returned tt, false)
shutdown (raised e) true = (raised e, true)

-- The job of the last schedule trigger, or the one that was there.
abbrev pub last_job : String → List Trigger → Option Job → Option Job
last_job agent_id [] before = before
last_job agent_id (schedule trigger ∷ triggers) before =
    last_job agent_id triggers (some (record { cron = trigger.cron; request = fired agent_id }))
last_job agent_id (event trigger ∷ triggers) before = last_job agent_id triggers before
last_job agent_id (external ∷ triggers) before = last_job agent_id triggers before

module _ (from_crontab : String → Result (Unit {0})) where
  lookup-add :
      (agent_id cron j : String) (jobs jobs' : Dict Job)
      → add from_crontab agent_id cron jobs ≡ returned jobs'
      → lookup j jobs' ≡ (
          if job_id agent_id == j
          then some (record { cron = cron; request = fired agent_id })
          else lookup j jobs)
  unfolding add
  lookup-add agent_id cron j jobs jobs' h =
      let (parsed, e, written) = bind-eq-returned (from_crontab cron) _ h in
      let same : insert (job_id agent_id) (record { cron = cron; request = fired agent_id }) jobs
          ≡ jobs' =
        cc in
      rw⁻¹ same
        (lookup-insert (job_id agent_id) j (record { cron = cron; request = fired agent_id }) jobs)

  same_if :
      (b : Bool) (f : Option Job → Option Job) (new old : Option Job)
      → (if b then f (if b then new else old) else (if b then new else old))
        ≡ (if b then f new else old)
  same_if true f new old = refl
  same_if false f new old = refl

  -- Registering an agent's triggers leaves one job for the agent, that of its last schedule trigger,
  -- or what was there before if it has none; the jobs under other ids stay.
  pub lookup-register :
      (agent_id j : String) (triggers : List Trigger) (jobs jobs' : Dict Job)
      → register from_crontab agent_id triggers jobs ≡ returned jobs'
      → lookup j jobs' ≡ (
          if job_id agent_id == j
          then last_job agent_id triggers (lookup j jobs)
          else lookup j jobs)
  unfolding register
  lookup-register agent_id j [] jobs jobs' h = ground arith
  lookup-register agent_id j (schedule trigger ∷ triggers) jobs jobs' h =
      let (jobs1, e, later) = bind-eq-returned (add from_crontab agent_id trigger.cron jobs) _ h in
      lookup-register agent_id j triggers jobs1 jobs' later
      ∙ rw (lookup-add agent_id trigger.cron j jobs jobs1 e)
          (same_if (job_id agent_id == j) (last_job agent_id triggers) _ _)
  lookup-register agent_id j (event trigger ∷ triggers) jobs jobs' h =
      lookup-register agent_id j triggers jobs jobs' h
  lookup-register agent_id j (external ∷ triggers) jobs jobs' h =
      lookup-register agent_id j triggers jobs jobs' h
