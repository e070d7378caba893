-- ===== src/Runtime/Runner/Persistence.antt =====
-- `AgentRunner.run` of src/saga_agents/runtime/runner.py, its point on persistence: what the proposals
-- of a run do to the sink, and what of it the summary says.
use Prim.Native.String
use saga_agents.Common.{String, List, [], ◌∷◌, Option, none, some}
use saga_agents.Common.Result.{Awaited, completes, fails, is_cancelled}
use saga_agents.Config.Models.{Autonomy, proposal}
use saga_agents.Runtime.Report.{RunStatus, ok, ProposedAction}

-- The loop ends with the last persistence error, or is cancelled.
pub data Persisted : Type 0 where
  persisted : Option String → Persisted
  stopped : Persisted

-- The loop over `deps.proposals`.
unfoldable pub persist :
    {S : Type 0}
    → (ProposedAction → S → S × Awaited (Unit {0}))
    → List ProposedAction
    → Option String
    → S
    → S × Persisted
persist add [] last s = (s, persisted last)
persist add (p ∷ ps) last s =
    let (s', r) = add p s in
    elim r [
      | completes done ↦ persist add ps last s'
      | fails e ↦ persist add ps (some e) s'
      | is_cancelled ↦ (s', stopped)
    ]

-- Only in proposal mode, and where there is a sink.
unfoldable pub persist_if :
    {S : Type 0}
    → Autonomy
    → Option (ProposedAction → S → S × Awaited (Unit {0}))
    → List ProposedAction
    → S
    → S × Persisted
unfolding persist
persist_if proposal (some add) ps s = persist add ps none s
persist_if autonomy sink ps s = (s, persisted none)

unfoldable pub summary_of : RunStatus → String → Option String → String
summary_of ok summary (some e) =
    String.◌++◌ summary
      (String.◌++◌ "\n[warning: proposal persistence degraded: " (String.◌++◌ e "]"))
summary_of status summary e = summary
