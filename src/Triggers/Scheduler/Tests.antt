-- ===== src/Triggers/Scheduler/Tests.antt =====
-- An agent with two schedule triggers.
use saga_agents.Common.{String, ◌≡◌, refl, List, [], ◌∷◌}
use saga_agents.Common.Dict.{Dict, insert}
use saga_agents.Common.Result.{Result, returned}
use saga_agents.Config.Models.{Trigger, schedule, external}
use saga_agents.Triggers.Scheduler.{Job, fired, job_id, register}

abbrev triggers : List Trigger
triggers =
    schedule (record { cron = "0 3 * * *" })
    ∷ external
    ∷ schedule (record { cron = "0 15 * * *" })
    ∷ []

abbrev parses : String → Result (Unit {0})
parses cron = returned tt

abbrev jobs : Dict Job
jobs = ("cron:janitor", record { cron = "0 15 * * *"; request = fired "janitor" }) ∷ []

registered : register parses "janitor" triggers [] ≡ returned jobs
unfolding register insert job_id
registered = refl
