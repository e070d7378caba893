-- ===== src/App/Recording/Tests.antt =====
-- A run that proposes a deletion, its approval, and the same run under the executor.
use saga_agents.Common.{
  ℕ, suc, ◌≤◌, String, ◌≡◌, get_elem?, ◌∙◌, refl, sym, ap, List, [], ◌∷◌, none, some, true,
  contains, without,
}
use saga_agents.Common.Dict.{lookup}
use saga_agents.Common.Json.{string}
use saga_agents.Common.Result.{Result, returned, completes}
use saga_agents.Common.Scan.{segments_from, captures}
use saga_agents.Config.Models.{GlobalConfig, AgentDefinition, default_definition}
use saga_agents.Proposals.Database.{Row}
use saga_agents.Proposals.Memory.{memory}
use saga_agents.Proposals.TextCodec.{text_codec}
use saga_agents.Proposals.Store.{Store, get, add}
use saga_agents.Proposals.Store.Readable.{IsReadable}
use saga_agents.Proposals.Store.Updates.{decided}
use saga_agents.Runtime.Report.{ProposedAction, RunReport, limit_exceeded}
use saga_agents.Runtime.Guidance.{fetched, referenced_keys}
use saga_agents.Runtime.Toolset.{visible_tool_names}
use saga_agents.Runtime.Session.{mcp, propose, limit_reached}
use saga_agents.Runtime.Session.Eager.{eager}
use saga_agents.Runtime.Runner.{AgentRunner, SpanContext, run}
use saga_agents.Triggers.Api.{ToolCall, approve_proposal}
use saga_agents.Triggers.Api.Approval.{bearer, outcome_status, outcome_error}
use saga_agents.Triggers.Base.{RunRequest}
use saga_agents.Triggers.Lock.Memory.{Locks, no_locks}
use saga_agents.Triggers.Lock.Memory.{memory as memory_locks}
use saga_agents.Triggers.Executor
use saga_agents.Triggers.Executor.{
  RunCount, Settings, Executor, Task, running, answered, lost_reply, submits, global_permit,
  agent_permit, set_ends, init, agent_limit, first_phase, take_global, take_agent, after_set, step,
}
use saga_agents.App.Runs.{Over, after_both, end_of, Counts, run_of, run-Over}
use saga_agents.App.Recording.{Recorder, made, store_sink}
use saga_agents.App.Recording.Approved.{run-approved}

-- The ids are as many ticks as the calls before, and the clock stands.
abbrev ids : ℕ → String
ids = text_codec.isoformat

abbrev clock : ℕ → ℕ
clock n = 5

ids_unique : (m n : ℕ) → ids m ≡ ids n → m ≡ n
ids_unique m n same =
    let read_back =
      sym (text_codec.fromisoformat-isoformat m)
      ∙ ap text_codec.fromisoformat same
      ∙ text_codec.fromisoformat-isoformat n in
    cc

abbrev empty : Recorder (List Row)
empty = record { store = record { db = []; transitions = [] }; added = 0 }

empty-IsReadable : IsReadable memory text_codec empty.store
empty-IsReadable = record { reads = λ k row h. cc }

empty_fresh : (n : ℕ) → 0 ≤ n → get memory text_codec (ids n) empty.store ≡ returned none
unfolding get
empty_fresh n h = refl

abbrev config : GlobalConfig
config = record {
  mcp = record { base_url = "http://saga"; bearer_token = "t" };
  ollama = record { base_url = "http://ollama"; default_model = "m" };
  redis = record { url = "redis://r"; event_channel = "saga:events" };
  langfuse = record { public_key = ""; secret_key = ""; host = "https://cloud.langfuse.com" };
  runtime = record {
    max_concurrent_runs_global = 2;
    proposals_db = "proposals.db";
    guidance_cache_ttl_seconds = 300;
  };
  agents_dir = "config/agents";
}

abbrev deletion : ProposedAction
deletion = record {
  action = "delete";
  arguments = ("document", string "42") ∷ [];
  rationale = "a duplicate";
}

-- The model proposes the deletion and comes to its step limit.
abbrev runner : AgentRunner String String ℕ (Recorder (List Row))
runner = record {
  config = config;
  model_factory = λ url name. returned name;
  mcp_server_factory = λ url token. returned url;
  guidance_get = λ g. (suc g, fetched []);
  proposal_sink = some (store_sink memory text_codec ids clock);
  agents =
      eager (mcp "delete" [] ∷ propose deletion.action deletion.arguments deletion.rationale ∷ [])
        (limit_reached "request_limit");
  show = λ n. "900";
  format_hex = λ n. "0af7";
}

abbrev janitor : AgentDefinition
janitor = default_definition "janitor"

abbrev traced : Result SpanContext
traced = returned (record { trace_id = 2807; is_valid = true })

abbrev report : RunReport
report = record {
  run_id = "r1";
  agent_id = "janitor";
  status = limit_exceeded;
  summary = "";
  tool_calls = 0;
  proposals = deletion ∷ [];
  error = some "request_limit";
  trace_id = some "0af7";
}

returns : (run runner janitor none "r1" traced 0 empty).result ≡ completes report
unfolding run visible_tool_names without contains referenced_keys captures segments_from store_sink
    add
returns = refl

abbrev delete_42 : ToolCall → Result String
delete_42 call = returned "deleted"

abbrev asked : ToolCall
asked = record { action = "delete"; arguments = ("document", string "42") ∷ [] }

run-approved_example :
    (s : Store (List Row)) × ((approve_proposal memory text_codec
        (λ v. returned (string v))
        (λ v. v)
        "t"
        (some delete_42)
        (bearer "t")
        (ids 0)
        (record {
          store = some (run runner janitor none "r1" traced 0 empty).sink.store;
          calls = [];
        })).0
      ≡ record { store = some s; calls = asked ∷ [] })
    × (get memory text_codec (ids 0) s
        ≡ returned (
            some (
              decided
                (outcome_status (delete_42 asked))
                (outcome_error (delete_42 asked))
                (made memory text_codec ids clock "janitor" "r1" deletion 0))))
run-approved_example =
    run-approved memory text_codec ids clock runner janitor none "r1" traced 0 empty
      (λ v. returned (string v)) (λ v. v) "t" delete_42 [] report 0 deletion ids_unique empty_fresh
      empty-IsReadable refl refl returns refl

-- The same run under the executor.
abbrev settings : Settings
settings = record { definitions = ("janitor", janitor) ∷ []; global_limit = 2; redis = true }

abbrev asked_for : RunRequest
asked_for = record { agent_id = "janitor"; reason = "cron" }

abbrev under_way : Executor Locks
under_way =
    Executor.run memory_locks settings
      (submits asked_for ∷ global_permit 0 ∷ agent_permit 0 ∷ set_ends 0 answered ∷ [])
      (init settings no_locks)

abbrev task : Task
task = record { req = asked_for; phase = running (some 0) }

under_way_running : get_elem? under_way.tasks 0 ≡ some task
unfolding Executor.run step init first_phase take_global take_agent after_set lookup agent_limit
under_way_running = refl

ran : run_of runner settings task "r1" traced 0 empty ≡ some (completes report)
unfolding run_of lookup
ran = ap some returns

run-Over_example :
    (counts : List RunCount) × Over memory_locks settings 0 task
      (completes report)
      under_way
      (after_both memory_locks settings 0 (end_of (completes report)) lost_reply under_way)
      counts
    × Counts task (completes report) counts
run-Over_example =
    run-Over memory_locks settings runner "r1" traced 0 empty (completes report) 0 task (some 0)
      lost_reply under_way under_way_running refl ran
