-- ===== src/Runtime/Session.antt =====
-- What `agent.run` does within AgentRunner.run of src/saga_agents/runtime/runner.py, and the `propose`
-- tool of runtime/propose.py. Pydantic AI's part is a record: the calls that the model makes in a
-- run, and how the run ends.
pub mod Eager
use Prim.Native.String
use saga_agents.Common.{
  ℕ, ◌+◌, String, ◌==◌, ◌≡◌, Bool, true, not, List, [], ◌∷◌, Option, none, some, All, one_if,
}
use saga_agents.Common.Dict.{Dict}
use saga_agents.Common.Json.{Json}
use saga_agents.Common.Result.{Result, returned, raised}
use saga_agents.Runtime.Toolset.{FilteredToolset}
use saga_agents.Runtime.Report.{RunStatus, ok, limit_exceeded, timeout, ProposedAction}

-- A part of a message: a ToolCallPart with its tool_name, or another part.
pub data Part : Type 0 where
  tool_call : String → Part
  other_part : Part

-- `_count_tool_calls`, of `result.all_messages()`
counted : Part → ℕ
counted (tool_call name) = one_if (not (name == "propose"))
counted other_part = 0

count_parts : List Part → ℕ
unfolding counted
count_parts [] = 0
count_parts (part ∷ parts) = counted part + count_parts parts

count_messages : List (List Part) → ℕ
unfolding count_parts
count_messages [] = 0
count_messages (message ∷ messages) = count_parts message + count_messages messages

-- The messages up to the place where reading them raises, where it does: the count so far.
unfoldable pub count_tool_calls : List (List Part) → ℕ
unfolding count_messages
count_tool_calls messages = count_messages messages

-- What the model has done: a call of an MCP tool, or of the `propose` tool.
pub data AgentCall : Type 0 where
  mcp : String → Dict Json → AgentCall
  propose : String → Dict Json → String → AgentCall

-- How `agent.run` ends within its limits: a result with its output and messages, UsageLimitExceeded,
-- TimeoutError, another Exception, or a CancelledError.
pub data Ending : Type 0 where
  finished : String → List (List Part) → Ending
  limit_reached : String → Ending
  timed_out : Ending
  failing : String → Ending
  interrupted : Ending

pub record Session : Type 0 where
  pub calls : List AgentCall
  pub ending : Ending

-- The arguments of `Agent` and of `agent.run`.
pub record AgentSpec (Model Server : Type 0) : Type 0 where
  pub model : Model
  pub toolset : FilteredToolset Server
  pub with_propose : Bool
  pub instructions : String
  pub prompt : String
  pub request_limit : ℕ
  pub tool_calls_limit : ℕ
  pub timeout_seconds : ℕ

-- A FilteredToolset offers the tools that its filter passes, and an agent calls offered tools alone.
abbrev pub IsOffered : {Model Server : Type 0} → AgentSpec Model Server → AgentCall → Type 0
IsOffered spec (mcp name arguments) = spec.toolset.filter name ≡ true
IsOffered spec (propose action arguments rationale) = spec.with_propose ≡ true

pub record Agents (Model Server : Type 0) : Type 0 where
  pub build : AgentSpec Model Server → Result (Unit {0})
  pub run : AgentSpec Model Server → Session
  pub offered : (spec : AgentSpec Model Server) → All (IsOffered spec) (run spec).calls

-- `_propose`, at each call of the tool
unfoldable pub proposals_of : List AgentCall → List ProposedAction
proposals_of [] = []
proposals_of (mcp name arguments ∷ calls) = proposals_of calls
proposals_of (propose action arguments rationale ∷ calls) =
    record { action = action; arguments = arguments; rationale = rationale } ∷ proposals_of calls

-- status, summary, tool_calls and error
pub record Outcome : Type 0 where
  pub status : RunStatus
  pub summary : String
  pub tool_calls : ℕ
  pub error : Option String

-- `str` of an integer is `show`. A CancelledError leaves `run`: no `except` catches it.
unfoldable pub outcome_of : (ℕ → String) → ℕ → Ending → Option Outcome
outcome_of show seconds (finished output messages) =
    some (record {
      status = ok;
      summary = output;
      tool_calls = count_tool_calls messages;
      error = none;
    })
outcome_of show seconds (limit_reached e) =
    some (record { status = limit_exceeded; summary = ""; tool_calls = 0; error = some e })
outcome_of show seconds timed_out = some (record {
  status = timeout;
  summary = "";
  tool_calls = 0;
  error = some (String.◌++◌ "Run exceeded " (String.◌++◌ (show seconds) "s"));
})
outcome_of show seconds (failing e) =
    some (record { status = RunStatus.error; summary = ""; tool_calls = 0; error = some e })
outcome_of show seconds interrupted = none
