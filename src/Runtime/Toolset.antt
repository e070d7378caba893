-- ===== src/Runtime/Toolset.antt =====
-- src/saga_agents/runtime/toolset.py: the tools that an agent sees. A set of names is a list.
-- `server.filtered` is Pydantic AI's: a server with the filter that it was given.
use saga_agents.Common.{
  ◌≡◌, arith, String, Bool, true, not, ◌&&◌, List, contains, without, contains-without,
}
use saga_agents.Config.Models.{ToolsSpec, Autonomy, proposal, autonomous}

unfoldable pub visible_tool_names : ToolsSpec → Autonomy → List String
unfolding without
visible_tool_names tools autonomous = tools.allow
visible_tool_names tools proposal = without tools.write tools.allow

pub record FilteredToolset (Server : Type 0) : Type 0 where
  pub server : Server
  pub filter : String → Bool

-- The filter is `_allow`, of the name of a tool definition.
unfoldable pub filtered_server : {Server : Type 0} → Server → List String → FilteredToolset Server
filtered_server server allowed = record { server = server; filter = λ name. contains name allowed }

-- A tool is visible exactly when it is allowed and, unless the agent is autonomous, no write tool.
pub visible_tool_names_iff :
    (tools : ToolsSpec) (autonomy : Autonomy) (name : String)
    → contains name (visible_tool_names tools autonomy)
      ≡ contains name tools.allow
        && (elim autonomy [ autonomous ↦ true | proposal ↦ not (contains name tools.write) ])
unfolding visible_tool_names
visible_tool_names_iff tools autonomous name = ground arith
visible_tool_names_iff tools proposal name = contains-without name tools.write tools.allow
