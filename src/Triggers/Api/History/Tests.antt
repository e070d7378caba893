-- ===== src/Triggers/Api/History/Tests.antt =====
-- A sequence of requests to a store with one pending proposal, and the theorems at it.
use saga_agents.Common.{String, ◌≡◌, refl, List, [], ◌∷◌, some, tally, length}
use saga_agents.Common.Result.{returned}
use saga_agents.Proposals.Memory.{memory}
use saga_agents.Proposals.TextCodec.{text_codec}
use saga_agents.Proposals.Database.{Row}
use saga_agents.Proposals.Store.{Store, add}
use saga_agents.Triggers.Api.{Api}
use saga_agents.Triggers.Api.Approval.{bearer}
use saga_agents.Triggers.Api.Tests.{deletion, store, broken, encode, show, found, store-IsReadable}
use saga_agents.Triggers.Api.History.{Request, approves, rejects, proposes, serve}
use saga_agents.Triggers.Api.History.Decisions.{Stays, serve-Stays}
use saga_agents.Triggers.Api.History.Transitions.{is_applied, serve-Counts}

-- A rejection with a wrong token, an approval whose call fails, a second approval, and a proposal of
-- the same id.
abbrev requests : List (Request String)
requests =
    rejects (some "Bearer x") "p1"
    ∷ approves (bearer "t") "p1" broken
    ∷ approves (bearer "t") "p1" (λ call. returned "done")
    ∷ proposes (record deletion { action = "archive" })
    ∷ []

abbrev afterwards : Api (List Row)
afterwards =
    serve memory text_codec encode show "t" requests (record { store = some store; calls = [] })

serve-Stays_example :
    (s : Store (List Row)) × (afterwards.store ≡ some s) × Stays memory text_codec "p1" deletion s
serve-Stays_example =
    serve-Stays memory text_codec encode show "t" "p1" deletion requests store [] store-IsReadable
      found

store_counts : tally is_applied store.transitions ≡ 0
unfolding tally add
store_counts = refl

serve-Counts_example :
    (s : Store (List Row)) × (afterwards.store ≡ some s)
    × (tally is_applied s.transitions ≡ length afterwards.calls)
serve-Counts_example = serve-Counts memory text_codec encode show "t" requests store [] store_counts
