-- ===== src/Runtime/Session/Eager.antt =====
-- A model that tries given calls, of which it makes the offered ones: the law of Agents can hold.
use saga_agents.Common.{
  String, ◌≡◌, refl, Bool, true, false, List, [], ◌∷◌, All, select, if◌then◌else◌,
}
use saga_agents.Common.Result.{returned}
use saga_agents.Runtime.Session.{AgentCall, mcp, propose, AgentSpec, IsOffered, Agents, Ending}

abbrev pub is_offered : AgentSpec String String → AgentCall → Bool
is_offered spec (mcp name arguments) = spec.toolset.filter name
is_offered spec (propose action arguments rationale) = spec.with_propose

IsOffered-if :
    (spec : AgentSpec String String) (b : Bool) (call : AgentCall) (calls : List AgentCall)
    → (b ≡ true → IsOffered spec call)
    → All (IsOffered spec) calls
    → All (IsOffered spec) (if b then call ∷ calls else calls)
IsOffered-if spec true call calls h hs = (h refl, hs)
IsOffered-if spec false call calls h hs = hs

pub All-IsOffered :
    (spec : AgentSpec String String) (calls : List AgentCall)
    → All (IsOffered spec) (select (is_offered spec) calls)
All-IsOffered spec [] = tt
All-IsOffered spec (mcp name arguments ∷ calls) =
    IsOffered-if spec (spec.toolset.filter name) (mcp name arguments) _ (λ h. h)
      (All-IsOffered spec calls)
All-IsOffered spec (propose action arguments rationale ∷ calls) =
    IsOffered-if spec spec.with_propose (propose action arguments rationale) _ (λ h. h)
      (All-IsOffered spec calls)

-- It tries these calls and ends so, whatever it is asked.
abbrev pub eager : List AgentCall → Ending → Agents String String
eager wished ending = record {
  build = λ spec. returned tt;
  run = λ spec. record { calls = select (is_offered spec) wished; ending = ending };
  offered = λ spec. All-IsOffered spec wished;
}
