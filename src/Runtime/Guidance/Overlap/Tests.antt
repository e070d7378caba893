-- ===== src/Runtime/Guidance/Overlap/Tests.antt =====
-- Two calls that overlap, and one that is served from the cache.
use saga_agents.Common.{String, ◌≡◌, refl, get_elem?, some, List, [], ◌∷◌}
use saga_agents.Common.Dict.{Dict, insert}
use saga_agents.Common.Json.{Json, string, object, field, end}
use saga_agents.Common.Result.{returned, raised}
use saga_agents.Runtime.Guidance.{fetched, fetch_error, coerce_guidance, fresh}
use saga_agents.Runtime.Guidance.Overlap.{answered, Call, CallEvent, begins, ends, after}
use saga_agents.Runtime.Guidance.Overlap.Sound.{Current, after-Current}

abbrev shown : Json → String
shown (string t) = t
shown other = ""

abbrev german : Dict String
german = ("language", "de") ∷ []

-- Read from its end: two calls find no guidance; the second is answered first, the first fails; a third
-- one begins within the TTL of 300.
abbrev events : List CallEvent
events =
    begins 200
    ∷ ends 0 90 (raised "timeout")
    ∷ ends 1 40 (returned (object (field "language" (string "de") end)))
    ∷ begins 20
    ∷ begins 10
    ∷ []

first :
    get_elem? (after shown 300 events).calls 0
    ≡ some (record {
      began = 10;
      waiting = answered (fetch_error "Could not fetch get_store_guidance from MCP: timeout");
    })
unfolding after fresh coerce_guidance insert
first = refl

abbrev third : Call
third = record { began = 200; waiting = answered (fetched german) }

third_is : get_elem? (after shown 300 events).calls 2 ≡ some third
unfolding after fresh coerce_guidance insert
third_is = refl

after-Current_example : Current shown 300 events 2 200 german
after-Current_example = after-Current shown 300 events 2 third german third_is refl
